-- ===== src/Rooms/Stats/Rebuild.antt =====
-- A rebuild counts the rooms of the cache.
use audio_rtc_exp.Prelude.{
  ◌≡◌, refl, ◌∙◌, inl, inr, String, [], ◌∷◌, Option, none, some, arith, eq_iff, Map, lookup, IsMap,
  ◌==◌, string_eq, if◌then◌else◌, true, Bool-cases, Option-cases, not, is_some, string_eq_refl,
}
use audio_rtc_exp.Etcdstate.LiveMeta.{get_janus_id, get_mixer_id}
use audio_rtc_exp.Etcdstate.Room.{RoomState, get_live_meta}
use audio_rtc_exp.Watcher.{rebuild, rebuild_all}
use audio_rtc_exp.Rooms.Usage.{ModuleUsage, new_module_usage, assigned, set}
use audio_rtc_exp.Rooms.Usage.Laws.{IsValid, assigned-set, set-IsValid, new-IsValid}
use audio_rtc_exp.Rooms.Stats.{
  RoomWatcherWithStats, rebuild_start, rebuild_state, Json, stats_config,
}
use audio_rtc_exp.Rooms.Stats.Laws.{janus_of, mixer_of, Agrees, Follows}

-- What a part of a rebuild did to one usage: the rooms of a cache have entered their modules.
record Entered (which : Option RoomState → String) (cache : Map RoomState) (m n : ModuleUsage)
    : Type 0 where
  pub valid : IsValid n
  pub moved :
      (k : String)
      → assigned k n ≡ (if is_some (lookup k cache) then which (lookup k cache) else assigned k m)

Entered-nil :
    (which : Option RoomState → String) (m : ModuleUsage) → IsValid m → Entered which [] m m
unfolding lookup
Entered-nil which m v = record { valid = v; moved = λ k. refl }

unfoldable enter : String → String → ModuleUsage → ModuleUsage
enter r a m = if not (a == "") then set r a m else m

enter-IsValid : (r a : String) (m : ModuleUsage) → IsValid m → IsValid (enter r a m)
unfolding enter
enter-IsValid r a m v = elim (Bool-cases (a == "")) [
  | inl e ↦ rw e v
  | inr e ↦ rw e (set-IsValid r a m v)
]

assigned-enter :
    (r a j : String) (m : ModuleUsage)
    → assigned r m ≡ ""
    → assigned j (enter r a m) ≡ (if r == j then a else assigned j m)
unfolding enter
assigned-enter r a j m e = ground (arith, eq_iff a "", eq_iff r j, assigned-set r j a m)

Entered-cons :
    (which : Option RoomState → String) (r : String) (s : RoomState) (cache : Map RoomState)
    (m n : ModuleUsage)
    → IsMap ((r, s) ∷ cache)
    → assigned r m ≡ ""
    → Entered which cache (enter r (which (some s)) m) n
    → Entered which ((r, s) ∷ cache) m n
unfolding lookup
Entered-cons which r s cache m n h e g = record {
  valid = g.valid;
  moved = λ j. ground (arith, g.moved j, assigned-enter r (which (some s)) j m e, h.0, eq_iff r j);
}

entered_state :
    (r : String) (s : RoomState) (w : RoomWatcherWithStats)
    → rebuild_state r (some s) w ≡ record {
      janus_usage = enter r (janus_of (some s)) w.janus_usage;
      mixer_usage = enter r (mixer_of (some s)) w.mixer_usage;
    }
unfolding rebuild_state get_live_meta get_janus_id get_mixer_id enter
entered_state r s w = elim (Option-cases s.live_meta) [ inl e ↦ rw e refl | inr (l, e) ↦ rw e refl ]

-- No room of a cache is in a usage.
abbrev Absent : Map RoomState → ModuleUsage → Type 0
Absent cache m = (k : String) → is_some (lookup k cache) ≡ true → assigned k m ≡ ""

Absent-enter :
    (r a : String) (s : RoomState) (cache : Map RoomState) (m : ModuleUsage)
    → IsMap ((r, s) ∷ cache)
    → Absent ((r, s) ∷ cache) m
    → Absent cache (enter r a m)
unfolding lookup
Absent-enter r a s cache m h b k e =
    let first : assigned r m ≡ "" = b r (ground (arith, string_eq_refl r)) in
    elim (Bool-cases (r == k)) [
      | inl same ↦ absurd (ground (arith, eq_iff r k, h.0))
      | inr other ↦ assigned-enter r a k m first ∙ rw other (b k (rw other e))
    ]

first_there :
    (r : String) (s : RoomState) (cache : Map RoomState)
    → is_some (lookup r ((r, s) ∷ cache)) ≡ true
unfolding lookup
first_there r s cache = ground (arith, string_eq_refl r)

record BothEntered (cache : Map RoomState) (w x : RoomWatcherWithStats) : Type 0 where
  pub janus : Entered janus_of cache w.janus_usage x.janus_usage
  pub mixer : Entered mixer_of cache w.mixer_usage x.mixer_usage

unassigned : (k : String) → assigned k new_module_usage ≡ ""
unfolding assigned lookup
unassigned k = refl

follows :
    (which : Option RoomState → String)
    → which none ≡ ""
    → (cache : Map RoomState) (m : ModuleUsage) → Entered which cache new_module_usage m
    → Agrees which cache m
follows which blank cache m e = record {
  valid = e.valid;
  matches = λ r. elim (Option-cases (lookup r cache)) [
    | inl f ↦ ground (arith, e.moved r, f, unassigned r, blank)
    | inr (s, f) ↦ ground (arith, e.moved r, f)
  ];
}

module _ (json : Json) (prefix_rooms : String) where
  rebuild_all-BothEntered :
      (cache : Map RoomState) (w : RoomWatcherWithStats)
      → IsMap cache
      → IsValid w.janus_usage
      → IsValid w.mixer_usage
      → Absent cache w.janus_usage
      → Absent cache w.mixer_usage
      → BothEntered cache w (rebuild_all (stats_config json prefix_rooms) cache w).0
        × ((rebuild_all (stats_config json prefix_rooms) cache w).1 ≡ true)
  unfolding rebuild_all stats_config
  rebuild_all-BothEntered [] w h jv mv ja ma = (
    record {
      janus = Entered-nil janus_of w.janus_usage jv;
      mixer = Entered-nil mixer_of w.mixer_usage mv;
    },
    refl,
  )
  rebuild_all-BothEntered ((r, s) ∷ cache) w h jv mv ja ma =
      let j = janus_of (some s) in
      let m = mixer_of (some s) in
      let there = first_there r s cache in
      let (ends, ok) =
        rebuild_all-BothEntered cache
          (record { janus_usage = enter r j w.janus_usage; mixer_usage = enter r m w.mixer_usage })
          h.1 (enter-IsValid r j w.janus_usage jv) (enter-IsValid r m w.mixer_usage mv)
          (Absent-enter r j s cache w.janus_usage h ja)
          (Absent-enter r m s cache w.mixer_usage h ma) in
      rw (entered_state r s w) (
        record {
          janus = Entered-cons janus_of r s cache w.janus_usage _ h (ja r there) ends.janus;
          mixer = Entered-cons mixer_of r s cache w.mixer_usage _ h (ma r there) ends.mixer;
        },
        ok,
      )

  -- A rebuild over a cache with each room once succeeds, and afterwards the counts follow the cache, whatever they
  -- were before.
  pub rebuild-Follows :
      (cache : Map RoomState) (w : RoomWatcherWithStats)
      → IsMap cache
      → Follows cache (rebuild (stats_config json prefix_rooms) cache w).0
        × ((rebuild (stats_config json prefix_rooms) cache w).1 ≡ true)
  unfolding rebuild stats_config get_live_meta get_janus_id get_mixer_id
  rebuild-Follows cache w h =
      let (ends, ok) =
        rebuild_all-BothEntered cache (rebuild_start w) h new-IsValid new-IsValid
          (λ k e. unassigned k) (λ k e. unassigned k) in
      rw (rebuild, ok)
        (
          record {
            janus = follows janus_of refl cache _ ends.janus;
            mixer = follows mixer_of refl cache _ ends.mixer;
          },
          refl,
        )
