-- ===== src/Rooms/Stats/Counts.antt =====
-- The stream counts over the life of a watcher: a rebuild from the cache, and then the changes.
use audio_rtc_exp.Prelude.{
  ◌≡◌, String, List, [], ◌∷◌, Option, none, some, Map, IsMap, insert-IsMap, delete-IsMap, ◌==◌,
  string_eq, false,
}
use audio_rtc_exp.Etcdstate.Room.{RoomState}
use audio_rtc_exp.Watcher.{update_cache, rebuild}
use audio_rtc_exp.Rooms.Stats.{
  RoomWatcherWithStats, process_change, Json, stats_config, get_janus_stream_count,
  get_mixer_stream_count,
}
use audio_rtc_exp.Rooms.Stats.Laws.{
  janus_of, mixer_of, rooms_on, Follows, process_change-Follows, stream_count-rooms_on,
}
use audio_rtc_exp.Rooms.Stats.Rebuild.{rebuild-Follows}

abbrev pub Changes : Type 0
Changes = List (String × Option RoomState)

-- The cache after changes, the first of them first.
unfoldable pub update_all : Changes → Map RoomState → Map RoomState
update_all [] cache = cache
update_all ((r, s) ∷ changes) cache = update_all changes (update_cache r s cache)

unfoldable pub process_all : Changes → RoomWatcherWithStats → RoomWatcherWithStats
process_all [] w = w
process_all ((r, s) ∷ changes) w = process_all changes (process_change r s w)

update_cache-IsMap :
    (r : String) (s : Option RoomState) (cache : Map RoomState)
    → IsMap cache
    → IsMap (update_cache r s cache)
unfolding update_cache
update_cache-IsMap r none cache h = delete-IsMap r cache h
update_cache-IsMap r (some s) cache h = insert-IsMap r s cache h

update_all-IsMap :
    (changes : Changes) (cache : Map RoomState) → IsMap cache → IsMap (update_all changes cache)
unfolding update_all
update_all-IsMap [] cache h = h
update_all-IsMap ((r, s) ∷ changes) cache h =
    update_all-IsMap changes (update_cache r s cache) (update_cache-IsMap r s cache h)

process_all-Follows :
    (changes : Changes) (cache : Map RoomState) (w : RoomWatcherWithStats)
    → Follows cache w
    → Follows (update_all changes cache) (process_all changes w)
unfolding update_all process_all
process_all-Follows [] cache w f = f
process_all-Follows ((r, s) ∷ changes) cache w f =
    process_all-Follows changes (update_cache r s cache) (process_change r s w)
      (process_change-Follows r s cache w f)

module _ (json : Json) (prefix : String) where
  -- After a rebuild from any cache with each room once, whatever was counted before, and then any
  -- changes of rooms, the stream count of a module with a non-empty id is the number of rooms in
  -- the cache whose live metadata names it.
  pub process_all-rooms_on :
      (id : String) (changes : Changes) (cache : Map RoomState) (w : RoomWatcherWithStats)
      → IsMap cache
      → (id == "") ≡ false
      → let v = process_all changes (rebuild (stats_config json prefix) cache w).0 in
        (get_janus_stream_count id v ≡ rooms_on janus_of id (update_all changes cache))
        × (get_mixer_stream_count id v ≡ rooms_on mixer_of id (update_all changes cache))
  process_all-rooms_on id changes cache w h n =
      stream_count-rooms_on id (update_all changes cache)
        (process_all changes (rebuild (stats_config json prefix) cache w).0)
        (update_all-IsMap changes cache h)
        (process_all-Follows changes cache (rebuild (stats_config json prefix) cache w).0
          (rebuild-Follows json prefix cache w h).0)
        n
