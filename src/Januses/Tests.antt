-- ===== src/Januses/Tests.antt =====
-- A Janus manager at concrete values.
use audio_rtc_exp.Prelude.{
  List, ℕ, ◌≡◌, refl, [], ◌∷◌, Option, none, some, arith, Map, lookup, string_eq, nat_eq, true,
}
use audio_rtc_exp.Etcdstate.Room.{RoomState, empty_room}
use audio_rtc_exp.Watcher.{Loop, get_once, run_key, take_all, rebuild}
use audio_rtc_exp.Rooms.Stats.{Json}
use audio_rtc_exp.Reswatcher.{room_config}
use audio_rtc_exp.Januses.{
  ActiveRoom, RoomWatcher, creates, fine, process_change, is_assigned_to_us, endpoint, pin_of,
}
use audio_rtc_exp.Januses.Leaks.{
  watcher, fresh, Orphaned, process_change_leaks, process_change_unseen, Change, process_all,
  successes,
}
use audio_rtc_exp.Januses.Restart.{cfg, janus_config, restart_unrepaired}

abbrev on_air : RoomState
on_air = record empty_room {
  meta =
      some
        (record { pin = "123456"; hls_path = "r1/stream.m3u8"; max_anchors = 3; created_at = 5 });
  live_meta = some (record {
    status = "onair";
    mixer_id = "m1";
    janus_id = "j1";
    created_at = 5;
    discard_at = none;
    nonce = "ab";
  });
}

abbrev mixed : RoomState
mixed = record on_air { mixer = some (record { id = "m1"; ip = "10.0.0.1"; port = 6000 }) }

abbrev draw : ℕ → Option ℕ
draw n = some 7

abbrev redraw : ℕ → Option ℕ
redraw n = some 8

process_change_leaks_example :
    let v =
      (process_change "j1" 2 redraw "r1"
        (some on_air)
        (process_change "j1" 1 draw "r1"
          (some on_air)
          (watcher [] [] [] (fine 0 ∷ fine 0 ∷ []) (true ∷ []))).1).1 in
    (lookup "r1" v.active_rooms ≡ some (fresh 100008))
    × (v.calls ≡ creates 100007 "r1" "123456" ∷ creates 100008 "r1" "123456" ∷ [])
    × Orphaned 100007 v.active_rooms
unfolding is_assigned_to_us endpoint lookup pin_of
process_change_leaks_example =
    process_change_leaks "j1" 1 7 0 2 8 0 draw redraw "r1" (some on_air) [] [] [] [] refl refl refl
      refl refl (λ e. omega (arith, e)) (λ j a e. absurd (ground (arith, e)))

abbrev held : Map ActiveRoom
held = ("r1", fresh 100007) ∷ []

abbrev repinned : RoomState
repinned = record mixed {
  meta =
      some
        (record { pin = "654321"; hls_path = "r1/stream.m3u8"; max_anchors = 3; created_at = 5 });
}

abbrev again : List (Change "j1")
again = (2, redraw, some repinned) ∷ (3, draw, some mixed) ∷ []

process_change_unseen_example :
    let v =
      (process_change "j1" 1 draw "r1"
        (some mixed)
        (watcher held [] [] (fine 4 ∷ []) (true ∷ []))).1 in
    (process_all "j1" "r1" again v ≡ (successes "j1" again, v)) × (v.statuses ≡ [])
unfolding is_assigned_to_us endpoint lookup
process_change_unseen_example =
    process_change_unseen "j1" 1 4 6000 draw "r1" "10.0.0.1" (some mixed) (fresh 100007) held [] []
      [] [] again (refl, refl) refl refl refl refl ((refl, refl), ((refl, refl), tt))

abbrev json : Json
json = record { meta = λ v. none; live_meta = λ v. none; janus = λ v. none; mixer = λ v. none }

abbrev forwarding : ActiveRoom
forwarding = record { janus_room_id = 100007; stream_id = 4; fw_ip = "10.0.0.1"; fw_port = 6000 }

abbrev running : Loop RoomState RoomWatcher
running = record {
  cache = ("r1", mixed) ∷ [];
  retry_attempts = [];
  app = watcher (("r1", forwarding) ∷ []) [] [] [] [];
  enqueued = [];
}

restart_unrepaired_example :
    (run_key (cfg json "j1" "/rooms/" 1 draw) "r1" running).app ≡ running.app
unfolding is_assigned_to_us endpoint lookup get_once take_all rebuild janus_config room_config
restart_unrepaired_example =
    restart_unrepaired json "j1" "/rooms/" 1 draw [] running running true "r1" "10.0.0.1" 6000
      forwarding refl refl refl refl refl refl refl
