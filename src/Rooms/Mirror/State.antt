-- ===== src/Rooms/Mirror/State.antt =====
-- NewState, from the state that etcd holds to the state that it holds after a change of one key.
use audio_rtc_exp.Prelude.{◌≡◌, String, Option, none, some, arith, ◌==◌, string_eq, if◌then◌else◌}
use mathlib.Core.Option.{map}
use audio_rtc_exp.Etcdstate.{room_key_meta, room_key_live_meta, room_key_janus, room_key_mixer}
use audio_rtc_exp.Etcdstate.Room.{
  RoomState, is_empty, set_meta, set_live_meta, set_janus, set_mixer,
}
use audio_rtc_exp.Watcher.Values.{parse_value}
use audio_rtc_exp.Rooms.Stats.{Json, new_state, set_part}

-- A room without parts is not cached.
unfoldable pub to_state : RoomState → Option RoomState
unfolding is_empty
to_state rs = if is_empty (some rs) then none else some rs

unfoldable pub with_part : Json → String → String → RoomState → Option RoomState
unfolding parse_value
with_part json key_type value rs =
    if key_type == room_key_meta
    then map (λ m. record rs { meta = m }) (parse_value json.meta value)
    else if key_type == room_key_live_meta
    then map (λ m. record rs { live_meta = m }) (parse_value json.live_meta value)
    else if key_type == room_key_janus
    then map (λ m. record rs { janus = m }) (parse_value json.janus value)
    else if key_type == room_key_mixer
    then map (λ m. record rs { mixer = m }) (parse_value json.mixer value)
    else some rs

-- NewState answers the state with the changed part, or panics if the value cannot be read.
pub new_state-with_part :
    (json : Json) (key_type value : String) (rs : RoomState)
    → new_state json key_type value (to_state rs) ≡ map to_state (with_part json key_type value rs)
unfolding new_state with_part to_state set_part parse_value set_meta set_live_meta set_janus
    set_mixer is_empty
new_state-with_part json kt value rs = ground arith
