-- ===== src/Etcdstate.antt =====
-- backend/internal/etcdstate and backend/internal/constants: the records that the services keep in
-- etcd. A pointer is an Option; a time is a number of nanoseconds, 0 for the zero time; a
-- JSON-decoded port or capacity below 0 is read as 0.
pub mod Meta
pub mod LiveMeta
pub mod Mixer
pub mod Janus
pub mod Room
pub mod Module
use audio_rtc_exp.Prelude.{String}

-- RoomStatus
abbrev pub room_status_on_air : String
room_status_on_air = "onair"

abbrev pub room_status_removing : String
room_status_removing = "removing"

-- The key types of a room.
abbrev pub room_key_meta : String
room_key_meta = "meta"

abbrev pub room_key_live_meta : String
room_key_live_meta = "livemeta"

abbrev pub room_key_janus : String
room_key_janus = "janus"

abbrev pub room_key_mixer : String
room_key_mixer = "mixer"

-- The key types and labels of a module.
abbrev pub module_key_heartbeat : String
module_key_heartbeat = "heartbeat"

abbrev pub module_key_mark : String
module_key_mark = "mark"

abbrev pub module_status_healthy : String
module_status_healthy = "healthy"

abbrev pub mark_label_ready : String
mark_label_ready = "ready"

abbrev pub mark_label_cordon : String
mark_label_cordon = "cordon"
