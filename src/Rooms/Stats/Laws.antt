-- ===== src/Rooms/Stats/Laws.antt =====
-- The stream counts are the numbers of rooms whose live metadata names the module.
use audio_rtc_exp.Prelude.{
  ℕ, suc, ◌≡◌, refl, sym, ◌∙◌, inl, inr, String, [], ◌∷◌, Option, none, some, arith, eq_iff, Map,
  lookup, delete, IsMap, lookup-insert, lookup-delete, delete-IsMap, ◌==◌, string_eq, if◌then◌else◌,
  false, Bool-cases, Option-cases, string_eq_refl,
}
use audio_rtc_exp.Etcdstate.LiveMeta.{get_janus_id, get_mixer_id}
use audio_rtc_exp.Etcdstate.Room.{RoomState, get_live_meta}
use audio_rtc_exp.Watcher.{update_cache}
use audio_rtc_exp.Rooms.Usage.{ModuleUsage, assigned, set}
use audio_rtc_exp.Rooms.Usage.Laws.{
  or_empty, tally, tally-delete, IsValid, assigned-set, set-IsValid,
}
use audio_rtc_exp.Rooms.Stats.{
  RoomWatcherWithStats, process_change, get_janus_stream_count, get_mixer_stream_count,
}

abbrev pub janus_of : Option RoomState → String
janus_of s = get_janus_id (get_live_meta s)

abbrev pub mixer_of : Option RoomState → String
mixer_of s = get_mixer_id (get_live_meta s)

-- How many rooms of a cache have the module.
unfoldable pub rooms_on : (Option RoomState → String) → String → Map RoomState → ℕ
rooms_on which id [] = 0
rooms_on which id ((r, s) ∷ cache) =
    let rest = rooms_on which id cache in if which (some s) == id then suc rest else rest

-- A usage that agrees with a cache.
pub record Agrees (which : Option RoomState → String) (cache : Map RoomState) (m : ModuleUsage)
    : Type 0 where
  pub valid : IsValid m
  pub matches : (r : String) → assigned r m ≡ which (lookup r cache)

module _ (which : Option RoomState → String) (blank : which none ≡ "") where
  set-Agrees :
      (r : String) (s : Option RoomState) (cache : Map RoomState) (m : ModuleUsage)
      → Agrees which cache m
      → Agrees which (update_cache r s cache) (set r (which s) m)
  unfolding update_cache
  set-Agrees r none cache m a = record {
    valid = set-IsValid r (which none) m a.valid;
    matches =
        λ k. ground (arith, assigned-set r k (which none) m, lookup-delete r k cache, a.matches k);
  }
  set-Agrees r (some s) cache m a = record {
    valid = set-IsValid r (which (some s)) m a.valid;
    matches = λ k.
        ground (arith, assigned-set r k (which (some s)) m, lookup-insert r k s cache, a.matches k);
  }

  tally_none :
      (id : String) (assigns : Map String)
      → IsMap assigns
      → ((id == "") ≡ false)
      → ((r : String) → or_empty (lookup r assigns) ≡ "")
      → tally id assigns ≡ 0
  unfolding tally lookup
  tally_none id [] h n e = refl
  tally_none id ((r, a) ∷ m) h n e =
      let here : a ≡ "" = sym (ground (arith, string_eq_refl r)) ∙ e r in
      let rest : (k : String) → or_empty (lookup k m) ≡ "" = λ k. elim (Bool-cases (r == k)) [
        | inl same ↦ ground (arith, eq_iff r k, h.0)
        | inr other ↦ ground (arith, e k)
      ] in
      ground (arith, eq_iff a id, eq_iff id "", tally_none id m h.1 n rest)

  rooms_on-tally :
      (id : String) (cache : Map RoomState) (assigns : Map String)
      → IsMap cache
      → IsMap assigns
      → ((id == "") ≡ false)
      → ((r : String) → or_empty (lookup r assigns) ≡ which (lookup r cache))
      → tally id assigns ≡ rooms_on which id cache
  unfolding rooms_on lookup
  rooms_on-tally id [] m c h n e = tally_none id m h n (λ r. e r ∙ blank)
  rooms_on-tally id ((r, s) ∷ cache) m c h n e =
      let here : or_empty (lookup r m) ≡ which (some s) = ground (arith, e r, string_eq_refl r) in
      let rest : (k : String) → or_empty (lookup k (delete r m)) ≡ which (lookup k cache) = λ k.
        elim (Bool-cases (r == k)) [
          | inl same ↦ ground (arith, eq_iff r k, c.0, lookup-delete r k m, blank)
          | inr other ↦ ground (arith, e k, lookup-delete r k m)
        ] in
      ground (
        arith,
        tally-delete id r m h,
        rooms_on-tally id cache (delete r m) c.1 (delete-IsMap r m h) n rest,
        here,
        eq_iff "" id,
        eq_iff id "",
      )

or_empty-lookup : (r : String) (m : ModuleUsage) → or_empty (lookup r m.assigns) ≡ assigned r m
unfolding assigned
or_empty-lookup r m = elim (Option-cases (lookup r m.assigns)) [
  | inl e ↦ rw (assigned, e) refl
  | inr (a, e) ↦ rw (assigned, e) refl
]

-- The counts of a watcher that has seen the states of a cache.
pub record Follows (seen : Map RoomState) (w : RoomWatcherWithStats) : Type 0 where
  pub janus : Agrees janus_of seen w.janus_usage
  pub mixer : Agrees mixer_of seen w.mixer_usage

-- If the counts follow the states seen so far, each module's stream count is the number of those
-- rooms whose live metadata names it.
pub stream_count-rooms_on :
    (id : String) (seen : Map RoomState) (w : RoomWatcherWithStats)
    → IsMap seen
    → Follows seen w
    → (id == "") ≡ false
    → (get_janus_stream_count id w ≡ rooms_on janus_of id seen)
      × (get_mixer_stream_count id w ≡ rooms_on mixer_of id seen)
unfolding get_janus_stream_count get_mixer_stream_count get_janus_id get_mixer_id get_live_meta
stream_count-rooms_on id seen w m f n = (
  f.janus.valid.counted id
      ∙ rooms_on-tally janus_of refl id seen w.janus_usage.assigns m f.janus.valid.once n
          (λ r. or_empty-lookup r w.janus_usage ∙ f.janus.matches r),
  f.mixer.valid.counted id
      ∙ rooms_on-tally mixer_of refl id seen w.mixer_usage.assigns m f.mixer.valid.once n
          (λ r. or_empty-lookup r w.mixer_usage ∙ f.mixer.matches r),
)

-- If the counts follow the states seen so far, processing a room's state keeps the counts equal to the numbers of rooms, the room counted with
-- its new state.
pub process_change-Follows :
    (r : String) (s : Option RoomState) (seen : Map RoomState) (w : RoomWatcherWithStats)
    → Follows seen w
    → Follows (update_cache r s seen) (process_change r s w)
unfolding process_change get_janus_id get_mixer_id get_live_meta
process_change-Follows r s seen w f = record {
  janus = set-Agrees janus_of refl r s seen w.janus_usage f.janus;
  mixer = set-Agrees mixer_of refl r s seen w.mixer_usage f.mixer;
}
