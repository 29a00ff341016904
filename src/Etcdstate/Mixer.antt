-- ===== src/Etcdstate/Mixer.antt =====
-- What a mixer writes about a room.
use audio_rtc_exp.Prelude.{Option, String, none, some, ℕ}

pub record Mixer : Type 0 where
  pub id : String
  pub ip : String
  pub port : ℕ

-- The getters answer a zero value for a nil pointer.
unfoldable pub get_id : Option Mixer → String
get_id none = ""
get_id (some m) = m.id

unfoldable pub get_ip : Option Mixer → String
get_ip none = ""
get_ip (some m) = m.ip

unfoldable pub get_port : Option Mixer → ℕ
get_port none = 0
get_port (some m) = m.port
