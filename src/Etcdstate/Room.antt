-- ===== src/Etcdstate/Room.antt =====
-- The state of a room, as the watchers keep it. Setters on a nil pointer do nothing.
use audio_rtc_exp.Prelude.{Bool, true, Option, none, some, ◌&&◌, not, is_some, string_eq}
use audio_rtc_exp.Etcdstate.Meta.{Meta}
use audio_rtc_exp.Etcdstate.LiveMeta.{LiveMeta}
use audio_rtc_exp.Etcdstate.Mixer.{Mixer}
use audio_rtc_exp.Etcdstate.Janus.{Janus}

pub record RoomState : Type 0 where
  pub meta : Option Meta
  pub live_meta : Option LiveMeta
  pub mixer : Option Mixer
  pub janus : Option Janus

abbrev pub empty_room : RoomState
empty_room = record { meta = none; live_meta = none; mixer = none; janus = none }

unfoldable pub is_empty : Option RoomState → Bool
is_empty none = true
is_empty (some rs) =
    not (is_some rs.meta)
    && (not (is_some rs.live_meta) && (not (is_some rs.mixer) && not (is_some rs.janus)))

unfoldable pub get_meta : Option RoomState → Option Meta
get_meta none = none
get_meta (some rs) = rs.meta

unfoldable pub get_live_meta : Option RoomState → Option LiveMeta
get_live_meta none = none
get_live_meta (some rs) = rs.live_meta

unfoldable pub get_mixer : Option RoomState → Option Mixer
get_mixer none = none
get_mixer (some rs) = rs.mixer

unfoldable pub get_janus : Option RoomState → Option Janus
get_janus none = none
get_janus (some rs) = rs.janus

unfoldable pub set_meta : Option Meta → Option RoomState → Option RoomState
set_meta m none = none
set_meta m (some rs) = some (record rs { meta = m })

unfoldable pub set_live_meta : Option LiveMeta → Option RoomState → Option RoomState
set_live_meta lm none = none
set_live_meta lm (some rs) = some (record rs { live_meta = lm })

unfoldable pub set_mixer : Option Mixer → Option RoomState → Option RoomState
set_mixer m none = none
set_mixer m (some rs) = some (record rs { mixer = m })

unfoldable pub set_janus : Option Janus → Option RoomState → Option RoomState
set_janus j none = none
set_janus j (some rs) = some (record rs { janus = j })
