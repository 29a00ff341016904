-- ===== src/Etcdstate/LiveMeta.antt =====
-- The live metadata of a room: which mixer and which Janus serve it.
use audio_rtc_exp.Prelude.{Option, String, none, some, ℕ}

pub record LiveMeta : Type 0 where
  pub status : String
  pub mixer_id : String
  pub janus_id : String
  pub created_at : ℕ
  pub discard_at : Option ℕ
  pub nonce : String

-- The getters answer a zero value for a nil pointer.
unfoldable pub get_status : Option LiveMeta → String
get_status none = ""
get_status (some m) = m.status

unfoldable pub get_mixer_id : Option LiveMeta → String
get_mixer_id none = ""
get_mixer_id (some m) = m.mixer_id

unfoldable pub get_janus_id : Option LiveMeta → String
get_janus_id none = ""
get_janus_id (some m) = m.janus_id

unfoldable pub get_created_at : Option LiveMeta → ℕ
get_created_at none = 0
get_created_at (some m) = m.created_at

unfoldable pub get_discard_at : Option LiveMeta → Option ℕ
get_discard_at none = none
get_discard_at (some m) = m.discard_at

unfoldable pub get_nonce : Option LiveMeta → String
get_nonce none = ""
get_nonce (some m) = m.nonce
