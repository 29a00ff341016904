-- ===== src/Rooms/Mirror/Watch.antt =====
-- handleWatch and the first part of getAndWatchOnce on the cache of rooms.
use mathlib.Core.Path.{subst}
use audio_rtc_exp.Prelude.{
  ◌≡◌, ◌⊎◌, refl, sym, inl, inr, String, List, [], ◌∷◌, Option, none, some, arith, string_eq, true,
  false, Bool, Map, insert, delete, lookup-insert, lookup-delete,
}
use audio_rtc_exp.Etcdstate.Room.{RoomState}
use audio_rtc_exp.Watcher.{
  Parsed, parse_and_update_cache, Loop, Event, take_event, handle_event, handle_watch, announce,
}
use audio_rtc_exp.Watcher.Values.{parse_value}
use audio_rtc_exp.Rooms.Mirror.State.{with_part}
use audio_rtc_exp.Rooms.Stats.{Json, stats_config, RoomWatcherWithStats}
use audio_rtc_exp.Rooms.Mirror.Events.{
  Mirrors, Changed, Kept, parse_and_update_cache-Mirrors, Unreadable,
}

-- What an event did in etcd.
unfoldable pub apply : Event → Map String → Map String
apply (Event.put key value) store = insert key value store
apply (Event.deleted key) store = delete key store

unfoldable pub apply_all : List Event → Map String → Map String
unfolding apply
apply_all [] store = store
apply_all (e ∷ events) store = apply_all events (apply e store)

abbrev pub HasPut : String → String → List Event → Type 0
HasPut key value [] = ⊥
HasPut key value (e ∷ events) = (e ≡ Event.put key value) ⊎ HasPut key value events

module _ (json : Json) (p : String) (unmarshals : String → Bool) where
  put-Changed :
      (key value : String) (store : Map String)
      → Changed json p key value store (insert key value store)
  put-Changed key value store k = ground (arith, lookup-insert key k value store)

  deleted-Changed :
      (key : String) (store : Map String) → Changed json p key "" store (delete key store)
  deleted-Changed key store k = ground (arith, lookup-delete key k store)

  -- The loop goes on with a cache that mirrors etcd, or the program has panicked on the value of one
  -- of the events, which is no JSON of its key's type.
  pub data Goes (events : List Event) (store : Map String)
      : Option (Loop RoomState RoomWatcherWithStats) → Type 0 where
    on :
        (w : Loop RoomState RoomWatcherWithStats)
        → Mirrors json p store w.cache
        → Goes events store (some w)
    panic :
        (key value : String)
        → HasPut key value events
        → Unreadable json p key value
        → Goes events store none

  never-Unreadable : (key : String) → Unreadable json p key "" → ⊥
  unfolding with_part parse_value
  never-Unreadable key u = absurd (ground (arith, u.bad))

  -- The same, of one change, with what the panic was on.
  abbrev Took : String → String → Map String → Option (Loop RoomState RoomWatcherWithStats) → Type 0
  Took key value next none = Unreadable json p key value
  Took key value next (some w) = Mirrors json p next w.cache

  announced :
      (id : String) (good : Bool) (cache : Map RoomState) (w : Loop RoomState RoomWatcherWithStats)
      → (announce (stats_config json p) id cache good w).cache ≡ cache
  unfolding announce
  announced id true cache w = refl
  announced id false cache w = refl

  take_event-Took :
      (key value : String) (good : Bool) (store next : Map String)
      (w : Loop RoomState RoomWatcherWithStats)
      → Changed json p key value store next
      → Mirrors json p store w.cache
      → Took key value next (take_event (stats_config json p) key value good w)
  unfolding take_event
  take_event-Took key value good store next w c m =
      go (parse_and_update_cache (stats_config json p) key value w.cache) refl
        (parse_and_update_cache-Mirrors json p key value store next w.cache c m)
    where
      go :
          (r : Parsed RoomState)
          → parse_and_update_cache (stats_config json p) key value w.cache ≡ r
          → Kept json p key value next w.cache r
          → Took key value next (take_event (stats_config json p) key value good w)
      go (Parsed.taken id cache) e k =
          rw (take_event, e) (subst (Mirrors json p next) (sym (announced id good cache w)) k)
      go Parsed.refused e k = rw (take_event, e) k
      go Parsed.crashed e k = rw (take_event, e) k

  handle_event-Goes :
      (e : Event) (events : List Event) (store : Map String)
      (w : Loop RoomState RoomWatcherWithStats)
      → Mirrors json p store w.cache
      → Goes (e ∷ events) (apply e store) (handle_event (stats_config json p) unmarshals e w)
  unfolding handle_event apply
  handle_event-Goes (Event.put key value) events store w m =
      go (take_event (stats_config json p) key value (unmarshals value) w) (
        take_event-Took key value (unmarshals value) store (insert key value store) w
          (put-Changed key value store) m)
    where
      go :
          (r : Option (Loop RoomState RoomWatcherWithStats))
          → Took key value (insert key value store) r
          → Goes (Event.put key value ∷ events) (insert key value store) r
      go none u = panic key value (inl refl) u
      go (some v) n = on v n
  handle_event-Goes (Event.deleted key) events store w m =
      go (take_event (stats_config json p) key "" true w)
        (take_event-Took key "" true store (delete key store) w (deleted-Changed key store) m)
    where
      go :
          (r : Option (Loop RoomState RoomWatcherWithStats))
          → Took key "" (delete key store) r
          → Goes (Event.deleted key ∷ events) (delete key store) r
      go none u = absurd (never-Unreadable key u)
      go (some v) n = on v n

  -- If the cache mirrors etcd, then after handleWatch on the events of any watch response it mirrors
  -- etcd with those events applied in order, or the program has panicked on the value of one of
  -- the events, which is no JSON of its key's type.
  pub handle_watch-Mirrors :
      (events : List Event) (store : Map String) (w : Loop RoomState RoomWatcherWithStats)
      → Mirrors json p store w.cache
      → Goes events
          (apply_all events store)
          (handle_watch (stats_config json p) unmarshals events w)
  unfolding handle_watch apply_all
  handle_watch-Mirrors [] store w m = on w m
  handle_watch-Mirrors (e ∷ events) store w m =
      first (handle_event (stats_config json p) unmarshals e w)
        (handle_event-Goes e events store w m) (λ v. handle_watch-Mirrors events (apply e store) v)
    where
      later :
          (s : Map String) (r : Option (Loop RoomState RoomWatcherWithStats))
          → Goes events s r
          → Goes (e ∷ events) s r
      later s _ (panic key value h u) = panic key value (inr h) u
      later s _ (on v n) = on v n

      first :
          (r : Option (Loop RoomState RoomWatcherWithStats))
          → Goes (e ∷ events) (apply e store) r
          → ((v : Loop RoomState RoomWatcherWithStats)
              → Mirrors json p (apply e store) v.cache
              → Goes events
                  (apply_all events (apply e store))
                  (handle_watch (stats_config json p) unmarshals events v))
          → Goes (e ∷ events) (apply_all events (apply e store)) (elim r [
            | none ↦ none
            | some v ↦ handle_watch (stats_config json p) unmarshals events v
          ])
      first _ (panic key value h u) ih = panic key value h u
      first _ (on v n) ih = later _ _ (ih v n)
