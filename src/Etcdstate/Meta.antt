-- ===== src/Etcdstate/Meta.antt =====
-- The metadata of a room.
use audio_rtc_exp.Prelude.{Option, String, none, some, ℕ}

pub record Meta : Type 0 where
  pub pin : String
  pub hls_path : String
  pub max_anchors : ℕ
  pub created_at : ℕ

-- The getters answer a zero value for a nil pointer.
unfoldable pub get_pin : Option Meta → String
get_pin none = ""
get_pin (some m) = m.pin

unfoldable pub get_hls_path : Option Meta → String
get_hls_path none = ""
get_hls_path (some m) = m.hls_path

unfoldable pub get_max_anchors : Option Meta → ℕ
get_max_anchors none = 0
get_max_anchors (some m) = m.max_anchors

unfoldable pub get_created_at : Option Meta → ℕ
get_created_at none = 0
get_created_at (some m) = m.created_at
