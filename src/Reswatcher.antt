-- ===== src/Reswatcher.antt =====
-- backend/internal/reswatcher/etcd/room_watcher.go: the watcher of rooms that services are built on.
-- Its rebuild does nothing; only the change of a room is given by the service.
use mathlib.Core.Option.{map}
use audio_rtc_exp.Prelude.{
  String, List, Option, none, some, ◌==◌, string_eq, if◌then◌else◌, Bool, true, not, ◌&&◌, is_some,
}
use audio_rtc_exp.Etcdstate.{room_key_meta, room_key_live_meta, room_key_janus, room_key_mixer}
use audio_rtc_exp.Etcdstate.Room.{
  RoomState, empty_room, is_empty, set_meta, set_live_meta, set_mixer, set_janus,
}
use audio_rtc_exp.Watcher.{Config, StateTransformer, NewState}
use audio_rtc_exp.Watcher.Values.{parse_value}
use audio_rtc_exp.Rooms.Stats.{Json}

unfoldable pub set_of : Json → String → String → Option RoomState → Option (Option RoomState)
unfolding parse_value set_meta set_live_meta set_janus set_mixer
set_of json key_type value cur =
    if key_type == room_key_meta
    then map (λ meta. set_meta meta cur) (parse_value json.meta value)
    else if key_type == room_key_live_meta
    then map (λ live. set_live_meta live cur) (parse_value json.live_meta value)
    else if key_type == room_key_janus
    then map (λ janus. set_janus janus cur) (parse_value json.janus value)
    else if key_type == room_key_mixer
    then map (λ mixer. set_mixer mixer cur) (parse_value json.mixer value)
    else some cur

unfoldable pub kept_state : Option (Option RoomState) → NewState RoomState
unfolding is_empty
kept_state none = NewState.panicked
kept_state (some s) = NewState.next_state (if is_empty s then none else s)

unfoldable pub new_state : Json → String → String → String → Option RoomState → NewState RoomState
unfolding kept_state set_of
new_state json id key_type value cur_state =
    let cur = if not (value == "") && not (is_some cur_state) then some empty_room else cur_state in
    kept_state (set_of json key_type value cur)

-- The transformer of NewRoomWatcher is the watcher of this file, not that of the service.
unfoldable pub room_transformer {κ} :
    {S : Type κ} → Json → (String → Option RoomState → S → S × Bool) → StateTransformer RoomState S
unfolding new_state
room_transformer json process_change = record {
  rebuild_start = λ s. (s, true);
  rebuild_state = λ id state s. (s, true);
  rebuild_end = λ s. (s, true);
  new_state = new_state json;
  process_change = process_change;
}

unfoldable pub room_config {κ} :
    {S : Type κ}
    → Json
    → String
    → List String
    → (String → Option RoomState → S → S × Bool)
    → Config RoomState S
unfolding room_transformer
room_config json prefix_rooms allowed_types process_change = record {
  prefix_to_watch = prefix_rooms;
  allowed_key_types = allowed_types;
  trans = room_transformer json process_change;
}
