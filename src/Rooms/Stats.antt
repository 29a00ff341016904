-- ===== src/Rooms/Stats.antt =====
-- backend/rooms/service/room_watcher.go: the room watcher that also counts, for each Janus and each
-- mixer, the rooms that use it. The lock is not modelled: each operation holds it throughout,
-- and a rebuild holds it from its start to its end.
pub mod Laws
pub mod Rebuild
pub mod Counts
use audio_rtc_exp.Prelude.{
  ℕ, String, List, [], ◌∷◌, Option, none, some, Map, ◌==◌, string_eq, if◌then◌else◌, ◌&&◌, not,
  is_some, Bool, true, false,
}
use mathlib.Core.Option.{map}
use audio_rtc_exp.Watcher.{NewState, StateTransformer, Config}
use audio_rtc_exp.Watcher.Values.{parse_value}
use audio_rtc_exp.Etcdstate.{room_key_meta, room_key_live_meta, room_key_janus, room_key_mixer}
use audio_rtc_exp.Etcdstate.Meta.{Meta}
use audio_rtc_exp.Etcdstate.LiveMeta.{LiveMeta, get_janus_id, get_mixer_id}
use audio_rtc_exp.Etcdstate.Mixer.{Mixer}
use audio_rtc_exp.Etcdstate.Janus.{Janus}
use audio_rtc_exp.Etcdstate.Room.{
  RoomState, empty_room, is_empty, get_live_meta, set_meta, set_live_meta, set_janus, set_mixer,
}
use audio_rtc_exp.Rooms.Usage.{ModuleUsage, new_module_usage, count, set}

pub record RoomWatcherWithStats : Type 0 where
  pub janus_usage : ModuleUsage
  pub mixer_usage : ModuleUsage

unfoldable pub process_change :
    String → Option RoomState → RoomWatcherWithStats → RoomWatcherWithStats
unfolding get_live_meta get_janus_id get_mixer_id
process_change room_id state w = record {
  janus_usage = set room_id (get_janus_id (get_live_meta state)) w.janus_usage;
  mixer_usage = set room_id (get_mixer_id (get_live_meta state)) w.mixer_usage;
}

abbrev pub rebuild_start : RoomWatcherWithStats → RoomWatcherWithStats
rebuild_start w = record { janus_usage = new_module_usage; mixer_usage = new_module_usage }

unfoldable pub rebuild_state :
    String → Option RoomState → RoomWatcherWithStats → RoomWatcherWithStats
unfolding get_live_meta get_janus_id get_mixer_id
rebuild_state id etcd_data w = elim (get_live_meta etcd_data) [
  | none ↦ w
  | some live ↦
      let janus_id = get_janus_id (some live) in
      let mixer_id = get_mixer_id (some live) in
      record {
        janus_usage = if not (janus_id == "") then set id janus_id w.janus_usage else w.janus_usage;
        mixer_usage = if not (mixer_id == "") then set id mixer_id w.mixer_usage else w.mixer_usage;
      }
]

unfoldable pub get_janus_stream_count : String → RoomWatcherWithStats → ℕ
unfolding count
get_janus_stream_count janus_id w = count janus_id w.janus_usage

unfoldable pub get_mixer_stream_count : String → RoomWatcherWithStats → ℕ
unfolding count
get_mixer_stream_count mixer_id w = count mixer_id w.mixer_usage

-- `json.Unmarshal` into each type; none is a text that is no JSON of the type.
pub record Json : Type 0 where
  pub meta : String → Option Meta
  pub live_meta : String → Option LiveMeta
  pub janus : String → Option Janus
  pub mixer : String → Option Mixer

-- The `switch` on the key type. The setters keep a nil state nil.
unfoldable pub set_part : Json → String → String → Option RoomState → Option (Option RoomState)
unfolding parse_value set_meta set_live_meta set_janus set_mixer
set_part json key_type value cur =
    if key_type == room_key_meta
    then map (λ m. set_meta m cur) (parse_value json.meta value)
    else if key_type == room_key_live_meta
    then map (λ m. set_live_meta m cur) (parse_value json.live_meta value)
    else if key_type == room_key_janus
    then map (λ m. set_janus m cur) (parse_value json.janus value)
    else if key_type == room_key_mixer
    then map (λ m. set_mixer m cur) (parse_value json.mixer value)
    else some cur

-- The state of a room after a change of one of its keys; an empty value is a deleted key, and
-- none is a panic.
unfoldable pub new_state : Json → String → String → Option RoomState → Option (Option RoomState)
unfolding set_part is_empty
new_state json key_type value cur_state =
    let cur = if not (value == "") && not (is_some cur_state) then some empty_room else cur_state in
    map (λ updated. if is_empty updated then none else updated) (set_part json key_type value cur)

unfoldable to_new_state : Option (Option RoomState) → NewState RoomState
to_new_state none = NewState.panicked
to_new_state (some s) = NewState.next_state s

-- NewRoomWatcherWithStats: the watcher's configuration.
unfoldable pub stats_config : Json → String → Config RoomState RoomWatcherWithStats
unfolding process_change rebuild_state new_state to_new_state
stats_config json prefix_rooms = record {
  prefix_to_watch = prefix_rooms;
  allowed_key_types = room_key_meta ∷ room_key_live_meta ∷ room_key_janus ∷ room_key_mixer ∷ [];
  trans = record {
    rebuild_start = λ w. (rebuild_start w, true);
    rebuild_state = λ id s w. (rebuild_state id (some s) w, true);
    rebuild_end = λ w. (w, true);
    new_state = λ id key_type value cur. to_new_state (new_state json key_type value cur);
    process_change = λ id s w. (process_change id s w, true);
  };
}
