-- ===== src/Etcdstate/Janus.antt =====
-- What a Janus manager writes about a room.
use audio_rtc_exp.Prelude.{Option, String, none, some, ℕ}

pub record Janus : Type 0 where
  pub janus_id : String
  pub status : String
  pub timestamp : ℕ
  pub janus_room_id : ℕ

-- The getters answer a zero value for a nil pointer.
unfoldable pub get_janus_id : Option Janus → String
get_janus_id none = ""
get_janus_id (some m) = m.janus_id

unfoldable pub get_status : Option Janus → String
get_status none = ""
get_status (some m) = m.status

unfoldable pub get_timestamp : Option Janus → ℕ
get_timestamp none = 0
get_timestamp (some m) = m.timestamp

unfoldable pub get_janus_room_id : Option Janus → ℕ
get_janus_room_id none = 0
get_janus_room_id (some m) = m.janus_room_id
