-- ===== src/Rooms/Tests.antt =====
-- Rooms and modules at concrete values.
use audio_rtc_exp.Prelude.{
  ℕ, ◌-◌, ◌*◌, ◌≤◌, ◌<◌, ◌≡◌, refl, ◌↔◌, ◌⊎◌, String, List, [], ◌∷◌, none, some, arith, Map, lookup,
  insert, true, ◌==◌, string_eq, nat_eq, if◌then◌else◌, delete,
}
use audio_rtc_exp.Users.{second}
use audio_rtc_exp.Etcdstate.LiveMeta.{LiveMeta, get_janus_id, get_mixer_id}
use audio_rtc_exp.Etcdstate.Room.{RoomState, empty_room, get_live_meta}
use audio_rtc_exp.Etcdstate.Module.{ModuleState, is_healthy, get_heartbeat, get_status}
use audio_rtc_exp.Watcher.{Loop, Event, update_cache, handle_watch, get_once, rebuild}
use audio_rtc_exp.Rooms.Usage.{ModuleUsage, new_module_usage, set}
use audio_rtc_exp.Rooms.Stats.{
  RoomWatcherWithStats, process_change, Json, stats_config, get_janus_stream_count,
  get_mixer_stream_count,
}
use audio_rtc_exp.Rooms.Stats.Laws.{Follows, rooms_on, process_change-Follows}
use audio_rtc_exp.Rooms.Stats.Counts.{Changes, process_all, update_all, process_all-rooms_on}
use audio_rtc_exp.Rooms.Stats.Rebuild.{rebuild-Follows}
use audio_rtc_exp.Rooms.Mirror.State.{to_state}
use audio_rtc_exp.Rooms.Mirror.Events.{Mirrors, view}
use audio_rtc_exp.Rooms.Mirror.Watch.{Goes, apply_all, handle_watch-Mirrors}
use audio_rtc_exp.Rooms.Mirror.Start.{Started, load, get_once_starts, get_once_keeps_deleted}
use audio_rtc_exp.Rooms.Pick.{Healths, random_pick_module}
use audio_rtc_exp.Rooms.Pick.Laws.{HoldsHealthy, IsEligible, random_pick_module-IsEligible}
use audio_rtc_exp.Rooms.Housekeeping.{check_stale_rooms}
use audio_rtc_exp.Rooms.Housekeeping.Laws.{In, IsStale, check_stale_rooms_iff}

abbrev used : ModuleUsage
used = set "r1" "j1" new_module_usage

abbrev live : LiveMeta
live = record {
  status = "onair";
  mixer_id = "m1";
  janus_id = "j1";
  created_at = second;
  discard_at = none;
  nonce = "";
}

abbrev on_air : RoomState
on_air = record empty_room { live_meta = some live }

-- Values that are read as the constants above, and no other.
abbrev json : Json
json = record {
  meta = λ v. none;
  live_meta = λ v. if v == "live" then some live else none;
  janus = λ v. none;
  mixer = λ v. none;
}

abbrev idle : RoomWatcherWithStats
idle = record { janus_usage = new_module_usage; mixer_usage = new_module_usage }

abbrev rooms : Map RoomState
rooms = ("r1", on_air) ∷ ("r2", on_air) ∷ []

abbrev counted : RoomWatcherWithStats
counted = (rebuild (stats_config json "/rooms/") rooms idle).0

counted-Follows : Follows rooms counted
unfolding lookup
counted-Follows = (rebuild-Follows json "/rooms/" rooms idle (refl, (refl, tt))).0

process_change-Follows_example :
    Follows (update_cache "r1" none rooms) (process_change "r1" none counted)
process_change-Follows_example = process_change-Follows "r1" none rooms counted counted-Follows

abbrev moves : Changes
moves = ("r1", none) ∷ ("r3", some on_air) ∷ []

process_all-rooms_on_example :
    let v = process_all moves (rebuild (stats_config json "/rooms/") rooms idle).0 in
    (get_janus_stream_count "j1" v ≡ 2) × (get_mixer_stream_count "j1" v ≡ 0)
unfolding lookup insert rooms_on get_janus_id get_mixer_id get_live_meta update_all update_cache
    delete
process_all-rooms_on_example =
    process_all-rooms_on json "/rooms/" "j1" moves rooms idle (refl, (refl, tt)) refl

abbrev started : Loop RoomState RoomWatcherWithStats
started = record { cache = []; retry_attempts = []; app = idle; enqueued = [] }

abbrev held : List (String × String)
held = ("/rooms/r1/livemeta", "live") ∷ []

get_once_starts_example :
    Started json "/rooms/" held (load held []) (get_once (stats_config json "/rooms/") held started)
get_once_starts_example = get_once_starts json "/rooms/" held started refl

nothing-Mirrors : Mirrors json "/rooms/" [] []
unfolding Mirrors lookup to_state view
nothing-Mirrors id h = refl

abbrev changes : List Event
changes = Event.put "/rooms/r1/livemeta" "live" ∷ Event.deleted "/rooms/r1/mixer" ∷ []

handle_watch-Mirrors_example :
    Goes json "/rooms/"
      (λ v. true)
      changes
      (apply_all changes [])
      (handle_watch (stats_config json "/rooms/") (λ v. true) changes started)
handle_watch-Mirrors_example =
    handle_watch-Mirrors json "/rooms/" (λ v. true) changes [] started nothing-Mirrors

abbrev caught_up : Loop RoomState RoomWatcherWithStats
caught_up = record { cache = ("r1", on_air) ∷ []; retry_attempts = []; app = idle; enqueued = [] }

caught_up-Mirrors : Mirrors json "/rooms/" (load held []) caught_up.cache
unfolding get_once lookup insert load stats_config
caught_up-Mirrors = (get_once_starts json "/rooms/" held started refl).0

-- The room's key is deleted while the watch is broken: the answer to Get is empty.
abbrev restarted : Loop RoomState RoomWatcherWithStats
restarted = record caught_up {
  app = (rebuild (stats_config json "/rooms/") caught_up.cache idle).0;
}

get_once_keeps_deleted_example : lookup "r1" restarted.cache ≡ lookup "r1" caught_up.cache
unfolding get_once rebuild stats_config
get_once_keeps_deleted_example =
    get_once_keeps_deleted json "/rooms/" [] (load held []) caught_up restarted true "r1"
      caught_up-Mirrors tt refl

abbrev healthy : ModuleState
healthy = record {
  heartbeat = some (record { status = "healthy"; host = "h"; capacity = 2; started_at = 0 });
  mark = none;
}

abbrev healths : Healths
healths = ("j1", healthy) ∷ []

healths-HoldsHealthy : HoldsHealthy [] []
unfolding lookup is_healthy get_heartbeat get_status
healths-HoldsHealthy id = refl

last_below : (n : ℕ) → 1 ≤ n → (n - 1) < n
last_below n h = omega arith

random_pick_module-IsEligible_example :
    ((random_pick_module (λ n. n - 1) (λ id. 1) healths ≡ "")
      × ((id : String) → IsEligible (λ x. 1) healths id → ⊥))
    ⊎ IsEligible (λ id. 1) healths (random_pick_module (λ n. n - 1) (λ id. 1) healths)
random_pick_module-IsEligible_example =
    random_pick_module-IsEligible (λ id. 1) healths (λ n. n - 1) last_below

picked : random_pick_module (λ n. n - 1) (λ id. 1) healths ≡ "j1"
unfolding random_pick_module lookup
picked = refl

abbrev old_room : RoomState
old_room = record empty_room {
  meta = some (record { pin = ""; hls_path = ""; max_anchors = 2; created_at = second });
}

check_stale_rooms_iff_example :
    In "r1" (check_stale_rooms (900 * second) (("r1", old_room) ∷ []) (some ("r1" ∷ [])))
    ↔ (In "r1" ("r1" ∷ []) × IsStale (900 * second) (("r1", old_room) ∷ []) "r1")
check_stale_rooms_iff_example =
    check_stale_rooms_iff (900 * second) (("r1", old_room) ∷ []) ("r1" ∷ []) "r1"
