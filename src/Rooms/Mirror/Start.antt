-- ===== src/Rooms/Mirror/Start.antt =====
-- The first part of getAndWatchOnce on the cache of rooms: at a start, and at a restart.
use audio_rtc_exp.Prelude.{
  ◌≡◌, ◌⊎◌, refl, ◌∙◌, ap, inl, inr, String, List, [], ◌∷◌, Option, none, some, arith, ◌==◌,
  string_eq, true, false, Bool, Bool-cases, Option-cases, Map, lookup, insert, lookup-insert, IsMap,
  insert-IsMap, delete-IsMap,
}
use audio_rtc_exp.Etcdstate.Room.{RoomState}
use audio_rtc_exp.Watcher.{
  Parsed, parse_and_update_cache, Loop, take_all, get_once, update_cache, store_new, NewState,
  is_allowed, allowed,
}
use audio_rtc_exp.Watcher.Keys.{parse_key}
use audio_rtc_exp.Rooms.Stats.{Json, stats_config, RoomWatcherWithStats}
use audio_rtc_exp.Rooms.Stats.Laws.{Follows}
use audio_rtc_exp.Rooms.Stats.Rebuild.{rebuild-Follows}
use audio_rtc_exp.Rooms.Mirror.State.{to_state}
use audio_rtc_exp.Rooms.Mirror.Events.{
  view, text_of, part, room_types, Mirrors, Changed, Kept, parse_and_update_cache-Mirrors,
  Unreadable, lookup-update_cache,
}

-- The entries of an answer to Get as a store.
unfoldable pub load : List (String × String) → Map String → Map String
load [] store = store
load ((key, value) ∷ kvs) store = load kvs (insert key value store)

abbrev pub HasEntry : String → String → List (String × String) → Type 0
HasEntry key value [] = ⊥
HasEntry key value (kv ∷ kvs) = (kv ≡ (key, value)) ⊎ HasEntry key value kvs

update_cache-IsMap :
    (id : String) (s : Option RoomState) (cache : Map RoomState)
    → IsMap cache
    → IsMap (update_cache id s cache)
unfolding update_cache
update_cache-IsMap id none cache h = delete-IsMap id cache h
update_cache-IsMap id (some s) cache h = insert-IsMap id s cache h

module _ (json : Json) (p : String) where
  -- What parseAndUpdateCache changes: the state of the id that its key names, alone.
  data Touches (key : String) (cache : Map RoomState) : Parsed RoomState → Type 0 where
    touched :
        (id kt : String) (s : Option RoomState)
        → parse_key p key ≡ some (id, kt)
        → Touches key cache (Parsed.taken id (update_cache id s cache))
    refuses : Touches key cache Parsed.refused
    crashes : Touches key cache Parsed.crashed

  store_new-Touches :
      (key id kt : String) (s : NewState RoomState) (cache : Map RoomState)
      → parse_key p key ≡ some (id, kt)
      → Touches key cache (store_new (stats_config json p) id s cache)
  unfolding store_new
  store_new-Touches key id kt (NewState.next_state s) cache e = touched id kt s e
  store_new-Touches key id kt NewState.failed cache e = refuses
  store_new-Touches key id kt NewState.panicked cache e = crashes

  parse_and_update_cache-Touches :
      (key value : String) (cache : Map RoomState)
      → Touches key cache (parse_and_update_cache (stats_config json p) key value cache)
  unfolding parse_and_update_cache stats_config is_allowed
  parse_and_update_cache-Touches key value cache = elim (Option-cases (parse_key p key)) [
    | inl e ↦ rw (parse_and_update_cache, stats_config, e) refuses
    | inr (k, e) ↦ elim (Bool-cases (allowed room_types k.1)) [
      | inl a ↦
          rw (parse_and_update_cache, stats_config, e, is_allowed, a)
            (store_new-Touches key k.0 k.1 _ cache e)
      | inr a ↦ rw (parse_and_update_cache, stats_config, e, is_allowed, a) refuses
    ]
  ]

  put-Changed :
      (key value : String) (store : Map String)
      → Changed json p key value store (insert key value store)
  put-Changed key value store k = ground (arith, lookup-insert key k value store)

  -- No entry is of the id.
  abbrev pub Silent : String → List (String × String) → Type 0
  Silent id [] = Unit {0}
  Silent id ((key, value) ∷ kvs) =
      ((j kt : String) → parse_key p key ≡ some (j, kt) → (j == id) ≡ false) × Silent id kvs

  -- The cache after all entries, or an entry that cannot be read.
  abbrev Taken :
      List (String × String)
      → Map String
      → Map RoomState
      → Option (Map RoomState × Map (Unit {0}))
      → Type 0
  Taken kvs store cache none =
      (key : String) × ((value : String) × (HasEntry key value kvs × Unreadable json p key value))
  Taken kvs store cache (some r) =
      Mirrors json p (load kvs store) r.0
      × ((IsMap cache → IsMap r.0)
          × ((id : String) → Silent id kvs → lookup id r.0 ≡ lookup id cache))

  take_all-Taken :
      (kvs : List (String × String)) (store : Map String) (cache : Map RoomState)
      → Mirrors json p store cache
      → Taken kvs store cache (take_all (stats_config json p) kvs cache)
  unfolding take_all load
  take_all-Taken [] store cache m = (m, (λ n. n, λ id h. refl))
  take_all-Taken ((key, value) ∷ kvs) store cache m =
      go (parse_and_update_cache (stats_config json p) key value cache) refl
        (parse_and_update_cache-Touches key value cache)
        (parse_and_update_cache-Mirrors json p key value store (insert key value store) cache
          (put-Changed key value store) m)
        (λ c n. take_all-Taken kvs (insert key value store) c n)
    where
      go :
          (r : Parsed RoomState)
          → parse_and_update_cache (stats_config json p) key value cache ≡ r
          → Touches key cache r
          → Kept json p key value (insert key value store) cache r
          → ((c : Map RoomState)
              → Mirrors json p (insert key value store) c
              → Taken kvs (insert key value store) c (take_all (stats_config json p) kvs c))
          → Taken
              ((key, value) ∷ kvs)
              store
              cache
              (take_all (stats_config json p) ((key, value) ∷ kvs) cache)
      go _ e crashes k ih = rw (take_all, e) (key, (value, (inl refl, k)))
      go _ e refuses k ih =
          rw (take_all, e) (past (take_all (stats_config json p) kvs cache) (ih cache k))
        where
          past :
              (t : Option (Map RoomState × Map (Unit {0})))
              → Taken kvs (insert key value store) cache t
              → Taken ((key, value) ∷ kvs) store cache t
          past none (a, (b, (c, u))) = (a, (b, (inr c, u)))
          past (some r) (n, (i, s)) = (n, (i, λ id h. s id h.1))
      go _ e (touched id kt s f) k ih =
          let next = update_cache id s cache in
          rw (take_all, e) (past (take_all (stats_config json p) kvs next) (ih next k))
        where
          past :
              (t : Option (Map RoomState × Map (Unit {0})))
              → Taken kvs (insert key value store) (update_cache id s cache) t
              → Taken
                  ((key, value) ∷ kvs)
                  store
                  cache
                  (elim t [ none ↦ none | some r ↦ some (r.0, insert id tt r.1) ])
          past none (a, (b, (c, u))) = (a, (b, (inr c, u)))
          past (some r) (n, (i, same)) = (
            n,
            (
              λ h. i (update_cache-IsMap id s cache h),
              λ j h. same j h.1 ∙ lookup-update_cache id j s cache ∙ rw (h.0 id kt f) refl,
            ),
          )

  -- What the first part of getAndWatchOnce leaves: a panic on an unreadable entry, or a cache
  -- that mirrors the store and counts that follow the cache, without error.
  abbrev pub Started :
      List (String × String)
      → Map String
      → Option (Loop RoomState RoomWatcherWithStats × Bool)
      → Type 0
  Started kvs store none =
      (key : String) × ((value : String) × (HasEntry key value kvs × Unreadable json p key value))
  Started kvs store (some (w, ok)) =
      Mirrors json p store w.cache × (Follows w.cache w.app × (ok ≡ true))

  begin :
      (kvs : List (String × String)) (store : Map String) (w : Loop RoomState RoomWatcherWithStats)
      → IsMap w.cache
      → (t : Option (Map RoomState × Map (Unit {0})))
      → take_all (stats_config json p) kvs w.cache ≡ t
      → Taken kvs store w.cache t
      → Started kvs (load kvs store) (get_once (stats_config json p) kvs w)
  unfolding get_once
  begin kvs store w h none e t = rw (get_once, e) t
  begin kvs store w h (some (cache, ids)) e (m, (i, s)) =
      let (f, ok) = rebuild-Follows json p cache w.app (i h) in rw (get_once, e) (m, (f, ok))

  -- At a start with an empty cache, the answer to Get leaves a cache that mirrors the entries and
  -- stream counts that follow the cache, and no error; or the program panics on an entry whose
  -- value is no JSON of its key's type.
  pub get_once_starts :
      (kvs : List (String × String)) (w : Loop RoomState RoomWatcherWithStats)
      → w.cache ≡ []
      → Started kvs (load kvs []) (get_once (stats_config json p) kvs w)
  unfolding Mirrors lookup view to_state text_of part
  get_once_starts kvs w e =
      let m : Mirrors json p [] w.cache = rw e (λ id h. refl) in
      begin kvs [] w (rw e tt) (take_all (stats_config json p) kvs w.cache) refl
        (take_all-Taken kvs [] w.cache m)

  -- At a restart with a cache that mirrored etcd before, a room of which the answer to Get has no
  -- entry keeps the state that it had: the cache is not cleared, so a room that was deleted
  -- while the watch was broken stays cached.
  pub get_once_keeps_deleted :
      (kvs : List (String × String)) (store : Map String)
      (w x : Loop RoomState RoomWatcherWithStats) (ok : Bool) (id : String)
      → Mirrors json p store w.cache
      → Silent id kvs
      → get_once (stats_config json p) kvs w ≡ some (x, ok)
      → lookup id x.cache ≡ lookup id w.cache
  unfolding get_once
  get_once_keeps_deleted kvs store w x ok id m h e =
      go (take_all (stats_config json p) kvs w.cache) refl (take_all-Taken kvs store w.cache m)
    where
      go :
          (t : Option (Map RoomState × Map (Unit {0})))
          → take_all (stats_config json p) kvs w.cache ≡ t
          → Taken kvs store w.cache t
          → lookup id x.cache ≡ lookup id w.cache
      go none f t = absurd (ground (arith, rw (get_once, f) at e))
      go (some r) f (n, (i, same)) =
          let c : x.cache ≡ r.0 = ground (arith, rw (get_once, f) at e) in
          ap (lookup id) c ∙ same id h
