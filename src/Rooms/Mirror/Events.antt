-- ===== src/Rooms/Mirror/Events.antt =====
-- parseAndUpdateCache on a change of one key of etcd.
use audio_rtc_exp.Prelude.{
  ◌≡◌, refl, sym, ◌∙◌, ap, inl, inr, String, List, [], ◌∷◌, Option, none, some, arith, eq_iff, ◌==◌,
  string_eq, if◌then◌else◌, true, false, Bool-cases, Option-cases, ◌&&◌, Map, lookup, lookup-insert,
  lookup-delete, Without, string_eq_refl,
}
use audio_rtc_exp.Etcdstate.{room_key_meta, room_key_live_meta, room_key_janus, room_key_mixer}
use audio_rtc_exp.Etcdstate.Room.{RoomState}
use audio_rtc_exp.Watcher.{
  Parsed, parse_and_update_cache, update_cache, is_allowed, allowed, store_new,
}
use audio_rtc_exp.Watcher.Keys.{slash, full_key, parse_key, parse_key-full_key, parse_key-IsKeyOf}
use audio_rtc_exp.Watcher.Values.{parse_value}
use audio_rtc_exp.Rooms.Usage.Laws.{or_empty}
use audio_rtc_exp.Rooms.Stats.{Json, stats_config}
use audio_rtc_exp.Rooms.Mirror.State.{to_state, with_part, new_state-with_part}

abbrev pub room_types : List String
room_types = room_key_meta ∷ room_key_live_meta ∷ room_key_janus ∷ room_key_mixer ∷ []

slashless_meta : Without slash room_key_meta
slashless_meta = ground arith

slashless_live_meta : Without slash room_key_live_meta
slashless_live_meta = ground arith

slashless_janus : Without slash room_key_janus
slashless_janus = ground arith

slashless_mixer : Without slash room_key_mixer
slashless_mixer = ground arith

exclusive : (a b k : String) → (a == b) ≡ false → (k == a) ≡ true → (k == b) ≡ false
exclusive a b k n e = ground (arith, eq_iff a b, eq_iff k a, eq_iff k b)

pub lookup-update_cache :
    {T : Type 0} (id j : String) (s : Option T) (cache : Map T)
    → lookup j (update_cache id s cache) ≡ (if id == j then s else lookup j cache)
unfolding update_cache
lookup-update_cache id j none cache = lookup-delete id j cache
lookup-update_cache id j (some t) cache = lookup-insert id j t cache

-- A part of a room as its key holds it.
unfoldable pub part {ℓ} : {A : Type ℓ} → (String → Option A) → String → Option A
part unmarshal value = if value == "" then none else unmarshal value

module _ (json : Json) (p : String) where
  unfoldable pub text_of : Map String → String → String → String
  unfolding full_key
  text_of store id key_type = or_empty (lookup (full_key p id key_type) store)

  -- The state of a room in etcd.
  unfoldable pub view : Map String → String → RoomState
  unfolding part text_of
  view store id = record {
    meta = part json.meta (text_of store id room_key_meta);
    live_meta = part json.live_meta (text_of store id room_key_live_meta);
    mixer = part json.mixer (text_of store id room_key_mixer);
    janus = part json.janus (text_of store id room_key_janus);
  }

  unfoldable pub Mirrors : Map String → Map RoomState → Type 0
  Mirrors store cache =
      (id : String) → Without slash id → lookup id cache ≡ to_state (view store id)

  -- A change of one key: the text that the key holds is new, all others stay.
  abbrev pub Changed : String → String → Map String → Map String → Type 0
  Changed key value store next =
      (k : String)
      → or_empty (lookup k next) ≡ (if key == k then value else or_empty (lookup k store))

  -- Ids and types that make the same key are the same.
  same_key :
      (i j s t : String)
      → Without slash i
      → Without slash j
      → Without slash s
      → Without slash t
      → full_key p i s ≡ full_key p j t
      → (i ≡ j) × (s ≡ t)
  same_key i j s t hi hj hs ht e =
      let f =
        sym (parse_key-full_key p i s hi hs)
        ∙ (ap (parse_key p) e ∙ parse_key-full_key p j t hj ht) in
      ground (arith, f)

  text-Changed :
      (key value id kt j t : String) (store next : Map String)
      → Changed key value store next
      → key ≡ full_key p id kt
      → Without slash id
      → Without slash kt
      → Without slash j
      → Without slash t
      → text_of next j t ≡ (if id == j && kt == t then value else text_of store j t)
  unfolding text_of
  text-Changed key value id kt j t store next c e hi hk hj ht =
      let f = same_key id j kt t hi hj hk ht in
      let g : (id ≡ j) → (kt ≡ t) → full_key p id kt ≡ full_key p j t = λ a b. rw (a, b) refl in
      c (full_key p j t)
      ∙ rw e ground
          (arith, eq_iff id j, eq_iff kt t, eq_iff (full_key p id kt) (full_key p j t), f, g)

  module _ (key value id kt : String) (store next : Map String) (c : Changed key value store next)
      (e : key ≡ full_key p id kt) (hi : Without slash id) (hk : Without slash kt) where
    text_changes :
        (j : String)
        → Without slash j
        → (t : String) → Without slash t
        → text_of next j t ≡ (if id == j && kt == t then value else text_of store j t)
    text_changes j hj t ht = text-Changed key value id kt j t store next c e hi hk hj ht

    view_other : (j : String) → Without slash j → (id == j) ≡ false → view next j ≡ view store j
    unfolding view
    view_other j hj n =
        let t = text_changes j hj in
        rw
          (
            t room_key_meta slashless_meta,
            t room_key_live_meta slashless_live_meta,
            t room_key_mixer slashless_mixer,
            t room_key_janus slashless_janus,
            n,
          )
          refl

    view_here :
        (rs : RoomState)
        → allowed room_types kt ≡ true
        → with_part json kt value (view store id) ≡ some rs
        → view next id ≡ rs
    unfolding view with_part parse_value part allowed
    view_here rs a f =
        let t = text_changes id hi in
        rw
          (
            t room_key_meta slashless_meta,
            t room_key_live_meta slashless_live_meta,
            t room_key_mixer slashless_mixer,
            t room_key_janus slashless_janus,
            string_eq_refl id,
          )
          ground
          (
            arith,
            f,
            eq_iff kt room_key_meta,
            eq_iff kt room_key_live_meta,
            eq_iff kt room_key_mixer,
            eq_iff kt room_key_janus,
            exclusive room_key_meta room_key_live_meta kt refl,
            exclusive room_key_meta room_key_janus kt refl,
            exclusive room_key_meta room_key_mixer kt refl,
            exclusive room_key_live_meta room_key_janus kt refl,
            exclusive room_key_live_meta room_key_mixer kt refl,
            exclusive room_key_janus room_key_mixer kt refl,
          )

    view_same :
        allowed room_types kt ≡ false → (j : String) → Without slash j → view next j ≡ view store j
    unfolding view allowed
    view_same a j hj =
        let t = text_changes j hj in
        rw
          (
            t room_key_meta slashless_meta,
            t room_key_live_meta slashless_live_meta,
            t room_key_mixer slashless_mixer,
            t room_key_janus slashless_janus,
          )
          ground
          (
            arith,
            eq_iff kt room_key_meta,
            eq_iff kt room_key_live_meta,
            eq_iff kt room_key_mixer,
            eq_iff kt room_key_janus,
          )

  -- The change of a key cannot be read: a value that is no JSON of the key's type.
  pub record Unreadable (key value : String) : Type 0 where
    pub id : String
    pub key_type : String
    pub is_full : key ≡ full_key p id key_type
    pub bad : with_part json key_type value (view [] id) ≡ none

  -- What may become of a cache that mirrored etcd before the change.
  abbrev pub Kept : String → String → Map String → Map RoomState → Parsed RoomState → Type 0
  Kept key value next cache (Parsed.taken id new) = Mirrors next new
  Kept key value next cache Parsed.refused = Mirrors next cache
  Kept key value next cache Parsed.crashed = Unreadable key value

  with_part-none :
      (kt value : String) (a b : RoomState)
      → with_part json kt value a ≡ none
      → with_part json kt value b ≡ none
  unfolding with_part parse_value
  with_part-none kt value a b e = ground arith

  stored-Mirrors :
      (key value id kt : String) (store next : Map String) (cache : Map RoomState)
      → Changed key value store next
      → key ≡ full_key p id kt
      → Without slash id
      → Without slash kt
      → allowed room_types kt ≡ true
      → Mirrors store cache
      → Kept key value next cache (
          store_new
            (stats_config json p)
            id
            ((stats_config json p).trans.new_state id kt value (lookup id cache))
            cache)
  unfolding store_new stats_config Mirrors
  stored-Mirrors key value id kt store next cache c e hi hk a m =
      elim (Option-cases (with_part json kt value (view store id))) [
        | inl f ↦
            rw (m id hi, new_state-with_part json kt value (view store id), f)
              (record { id = id; key_type = kt; is_full = e; bad = with_part-none kt value _ _ f })
        | inr (rs, f) ↦
            rw (m id hi, new_state-with_part json kt value (view store id), f)
              (λ j hj. lookup-update_cache id j (to_state rs) cache ∙ elim (Bool-cases (id == j)) [
                | inl same ↦ rw same (
                    ap to_state (sym (view_here key value id kt store next c e hi hk rs a f))
                    ∙ ap (λ x. to_state (view next x)) ((eq_iff id j).0 same))
                | inr other ↦ rw other (
                    m j hj
                    ∙ ap to_state
                        (sym (view_other key value id kt store next c e hi hk j hj other)))
              ])
      ]

  not_full :
      (key j ty : String)
      → parse_key p key ≡ none
      → Without slash j
      → Without slash ty
      → (key == full_key p j ty) ≡ false
  not_full key j ty f hj ht = elim (Bool-cases (key == full_key p j ty)) [
    | inl same ↦
        let g =
          sym (parse_key-full_key p j ty hj ht)
          ∙ (ap (parse_key p) (sym ((eq_iff key (full_key p j ty)).0 same)) ∙ f) in
        absurd (ground (arith, g))
    | inr other ↦ other
  ]

  -- A key that is not one of a room's leaves every view as it was.
  view_unrelated :
      (key value : String) (store next : Map String)
      → Changed key value store next
      → parse_key p key ≡ none
      → (j : String) → Without slash j
      → view next j ≡ view store j
  unfolding view text_of
  view_unrelated key value store next c f j hj =
      let t : (ty : String)
          → Without slash ty
          → or_empty (lookup (full_key p j ty) next) ≡ or_empty (lookup (full_key p j ty) store) =
        λ ty ht. c (full_key p j ty) ∙ rw (not_full key j ty f hj ht) refl in
      rw
        (
          t room_key_meta slashless_meta,
          t room_key_live_meta slashless_live_meta,
          t room_key_mixer slashless_mixer,
          t room_key_janus slashless_janus,
        )
        refl

  known-Kept :
      (key value id kt : String) (store next : Map String) (cache : Map RoomState)
      → Changed key value store next
      → Mirrors store cache
      → parse_key p key ≡ some (id, kt)
      → Kept key value next cache (parse_and_update_cache (stats_config json p) key value cache)
  unfolding parse_and_update_cache Mirrors stats_config is_allowed
  known-Kept key value id kt store next cache c m f =
      let k = parse_key-IsKeyOf p key id kt f in
      elim (Bool-cases (allowed room_types kt)) [
        | inl a ↦
            rw (parse_and_update_cache, stats_config, f, is_allowed, a)
              (stored-Mirrors key value id kt store next cache c k.is_full k.id_whole k.type_whole a
                m)
        | inr a ↦
            rw (parse_and_update_cache, stats_config, f, is_allowed, a)
              (λ j hj.
                m j hj
                ∙ ap to_state (
                    sym (
                      view_same key value id kt store next c k.is_full k.id_whole k.type_whole a j
                        hj)))
      ]

  -- After a change of one key in etcd, parseAndUpdateCache on the key and its new text (empty for a
  -- deleted key) makes a cache that mirrored etcd mirror it again: the refused keys are those that
  -- no room has, and the only panic is on a value that is no JSON of its key's type.
  pub parse_and_update_cache-Mirrors :
      (key value : String) (store next : Map String) (cache : Map RoomState)
      → Changed key value store next
      → Mirrors store cache
      → Kept key value next cache (parse_and_update_cache (stats_config json p) key value cache)
  unfolding parse_and_update_cache Mirrors stats_config
  parse_and_update_cache-Mirrors key value store next cache c m =
      elim (Option-cases (parse_key p key)) [
        | inl f ↦
            rw (parse_and_update_cache, stats_config, f)
              (λ j hj. m j hj ∙ ap to_state (sym (view_unrelated key value store next c f j hj)))
        | inr (k, f) ↦ known-Kept key value k.0 k.1 store next cache c m f
      ]
