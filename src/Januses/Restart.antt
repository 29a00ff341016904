-- ===== src/Januses/Restart.antt =====
-- NewRoomWatcher and JanusRestartDetected: what a restart of the watcher of a Janus manager does.
use audio_rtc_exp.Prelude.{
  ℕ, ◌≡◌, refl, sym, ap, inl, inr, String, List, [], ◌∷◌, Option, none, some, arith, Map, lookup,
  ◌==◌, string_eq, nat_eq, Bool, true, false, Option-cases,
}
use audio_rtc_exp.Etcdstate.{room_key_meta, room_key_live_meta, room_key_mixer}
use audio_rtc_exp.Etcdstate.Room.{RoomState}
use audio_rtc_exp.Watcher.{Config, Loop, take_all, get_once, rebuild, rebuild_all, run_key}
use audio_rtc_exp.Rooms.Stats.{Json}
use audio_rtc_exp.Reswatcher.{room_config, room_transformer}
use audio_rtc_exp.Januses.{ActiveRoom, RoomWatcher, is_assigned_to_us, endpoint, process_change}
use audio_rtc_exp.Januses.Leaks.{unchanged}

abbrev pub without_error : Option (Unit {0}) × RoomWatcher → RoomWatcher × Bool
without_error (none, w) = (w, false)
without_error (some u, w) = (w, true)

-- NewRoomWatcher passes on processChange alone.
unfoldable pub janus_config :
    Json → String → String → ℕ → (ℕ → Option ℕ) → Config RoomState RoomWatcher
unfolding room_config process_change
janus_config json janus_id prefix_rooms now draw =
    room_config json prefix_rooms (room_key_meta ∷ room_key_live_meta ∷ room_key_mixer ∷ [])
      (λ room_id state w. without_error (process_change janus_id now draw room_id state w))

abbrev app_of : RoomWatcher → Option (Loop RoomState RoomWatcher × Bool) → RoomWatcher
app_of w none = w
app_of w (some p) = p.0.app

module _ (json : Json) (janus_id prefix_rooms : String) (now : ℕ) (draw : ℕ → Option ℕ) where
  abbrev pub cfg : Config RoomState RoomWatcher
  cfg = janus_config json janus_id prefix_rooms now draw

  rebuild_all-same : (cache : Map RoomState) (w : RoomWatcher) → rebuild_all cfg cache w ≡ (w, true)
  unfolding rebuild_all janus_config room_config room_transformer
  rebuild_all-same [] w = refl
  rebuild_all-same ((id, s) ∷ cache) w = rebuild_all-same cache w

  rebuild-same : (cache : Map RoomState) (w : RoomWatcher) → rebuild cfg cache w ≡ (w, true)
  unfolding rebuild janus_config room_config room_transformer
  rebuild-same cache w = rw (rebuild, rebuild_all-same cache w) refl

  get_once-same :
      (kvs : List (String × String)) (l m : Loop RoomState RoomWatcher) (ok : Bool)
      → get_once cfg kvs l ≡ some (m, ok)
      → m.app ≡ l.app
  unfolding get_once
  get_once-same kvs l m ok e = elim (Option-cases (take_all cfg kvs l.cache)) [
    | inl f ↦ absurd (ground (arith, rw (get_once, f) at e))
    | inr (p, f) ↦ sym (ap (app_of l.app) (rw (get_once, f, rebuild-same p.0 l.app) at e))
  ]

  -- A restart of the watcher repairs nothing in Janus: once the rooms are read again, a room that is
  -- active and forwards to the end that its state asks for is processed without a call of Janus, and
  -- the active rooms are as before, though Janus may have lost them all.
  pub restart_unrepaired :
      (kvs : List (String × String)) (l m : Loop RoomState RoomWatcher) (ok : Bool) (r ip : String)
      (port : ℕ) (a : ActiveRoom)
      → get_once cfg kvs l ≡ some (m, ok)
      → lookup r l.app.active_rooms ≡ some a
      → is_assigned_to_us janus_id (lookup r m.cache) ≡ true
      → endpoint janus_id (lookup r m.cache) ≡ some (ip, port)
      → (a.stream_id == 0) ≡ false
      → a.fw_ip ≡ ip
      → a.fw_port ≡ port
      → (run_key cfg r m).app ≡ l.app
  unfolding run_key janus_config room_config room_transformer
  restart_unrepaired kvs l m ok r ip port a e f y o s i p =
      let same = get_once-same kvs l m ok e in
      let held : lookup r m.app.active_rooms ≡ some a = rw same f in
      rw (run_key, unchanged janus_id now port draw r ip (lookup r m.cache) a m.app y o held s i p)
        same
