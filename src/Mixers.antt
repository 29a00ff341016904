-- ===== src/Mixers.antt =====
-- backend/mixers/watcher/watcher.go, with StartFFmpeg and StopFFmpeg of
-- backend/mixers/ffmpeg/ffmpeg.go: a mixer starts and stops the stream of each room that it serves.
-- A step that may fail asks `faults`; an FFmpeg process itself is not modelled.
pub mod Ports
pub mod Laws
pub mod Change
mod Tests
use audio_rtc_exp.Prelude.{
  ℕ, String, List, [], ◌∷◌, Option, none, some, Map, lookup, insert, delete, ◌==◌, string_eq,
  if◌then◌else◌, Bool, true, false, not, ◌&&◌, is_some,
}
use audio_rtc_exp.Etcdstate.{room_status_on_air}
use audio_rtc_exp.Etcdstate.LiveMeta.{LiveMeta}
use audio_rtc_exp.Etcdstate.Mixer.{Mixer}
use audio_rtc_exp.Etcdstate.Room.{RoomState, empty_room}

pub record ActiveRoom : Type 0 where
  pub port : ℕ
  pub status : String

-- An entry of `processes`; StopFFmpeg stops the process and a timer removes the entry later.
pub record ProcessInfo : Type 0 where
  pub rtp_port : ℕ
  pub stopped : Bool

-- `mixer_data` is what etcd holds under the `mixer` keys of the rooms.
pub record RoomWatcher : Type 0 where
  pub active_rooms : Map ActiveRoom
  pub processes : Map ProcessInfo
  pub mixer_data : Map Mixer
  pub faults : List Bool

-- The error, if any, is false.
abbrev pub M : Type 0
M = RoomWatcher → Bool × RoomWatcher

-- `if err := m; err != nil { return err }` and the rest
infixl 5 ◌>>◌
abbrev pub ◌>>◌ : M → M → M
m >> k = λ w. let (ok, v) = m w in if ok then k v else (false, v)

abbrev pub done : M
done w = (true, w)

abbrev pub fail : M
fail w = (false, w)

-- A call that fails and does nothing if the next fault says so.
unfoldable pub call : (RoomWatcher → RoomWatcher) → M
call f w = elim w.faults [
  | [] ↦ (true, f w)
  | false ∷ fs ↦ (true, f (record w { faults = fs }))
  | true ∷ fs ↦ (false, record w { faults = fs })
]

module _ (id mixer_ip : String) where
  unfoldable pub update_mixer : String → Option ℕ → M
  unfolding call
  update_mixer room_id none = call λ w. record w { mixer_data = delete room_id w.mixer_data }
  update_mixer room_id (some p) = call λ w. record w {
    mixer_data = insert room_id (record { id = id; ip = mixer_ip; port = p }) w.mixer_data;
  }

-- The files that Generate and MkdirAll write are left out, their errors are not.
unfoldable pub start_ffmpeg : String → ℕ → M
unfolding call
start_ffmpeg room_id rtp_port w =
    if is_some (lookup room_id w.processes)
    then (false, w)
    else (call (λ v. v) >> call (λ v. v) >> call (λ v. v) >> λ v. (
      true,
      record v {
        processes = insert room_id (record { rtp_port = rtp_port; stopped = false }) v.processes;
      },
    ))
        w

unfoldable pub stop_ffmpeg : String → M
stop_ffmpeg room_id w = elim (lookup room_id w.processes) [
  | none ↦ (false, w)
  | some p ↦
      (true, record w { processes = insert room_id (record p { stopped = true }) w.processes })
]

-- The timer of StopFFmpeg.
unfoldable pub reap : String → RoomWatcher → RoomWatcher
reap room_id w = record w { processes = delete room_id w.processes }

unfoldable pub should_be_running : String → RoomState → Bool
should_be_running id state = elim state.live_meta [
  | none ↦ false
  | some livemeta ↦ livemeta.status == room_status_on_air && livemeta.mixer_id == id
]

unfoldable pub is_state_runner : String → RoomState → Bool
is_state_runner id state = elim state.mixer [ none ↦ false | some mixer ↦ mixer.id == id ]

-- A nil state is an empty one.
unfoldable pub given : Option RoomState → RoomState
given none = empty_room
given (some s) = s

module _ (id mixer_ip : String) where
  -- `free_port` is the answer of GetFreeRTPPort.
  unfoldable pub start_room_ffmpeg : Option ℕ → String → M
  unfolding start_ffmpeg update_mixer
  start_room_ffmpeg none room_id = fail
  start_room_ffmpeg (some p) room_id =
      start_ffmpeg room_id p >> update_mixer id mixer_ip room_id (some p) >> λ w. (
        true,
        record w {
          active_rooms = insert room_id (record { port = p; status = "running" }) w.active_rooms;
        },
      )

  unfoldable pub stop_room_ffmpeg : String → Bool → M
  unfolding stop_ffmpeg update_mixer
  stop_room_ffmpeg room_id is_state_runner = stop_ffmpeg room_id >> λ w.
      let v = record w { active_rooms = delete room_id w.active_rooms } in
      if is_state_runner then update_mixer id mixer_ip room_id none v else (true, v)

  unfoldable pub sync_mixer_data : String → M
  unfolding update_mixer
  sync_mixer_data room_id w = elim (lookup room_id w.active_rooms) [
    | none ↦ (false, w)
    | some active_room ↦ update_mixer id mixer_ip room_id (some active_room.port) w
  ]

  unfoldable pub process_change : Option ℕ → String → Option RoomState → M
  unfolding given start_room_ffmpeg stop_room_ffmpeg sync_mixer_data should_be_running
      is_state_runner
  process_change free_port room_id st w =
      let state = given st in
      let should = should_be_running id state in
      let running = is_some (lookup room_id w.active_rooms) in
      let runner = is_state_runner id state in
      if should && not running
      then start_room_ffmpeg free_port room_id w
      else if should && running && not runner
      then sync_mixer_data room_id w
      else if not should && running
      then stop_room_ffmpeg room_id runner w
      else (true, w)
