-- ===== src/Mixers/Tests.antt =====
-- A mixer at concrete rooms.
use audio_rtc_exp.Prelude.{
  ℕ, ◌+◌, ◌%◌, ◌≤◌, ◌≡◌, refl, ◌⊎◌, List, [], ◌∷◌, Option, none, some, arith, lookup, Bool, true,
  false, is_some, not, nat_eq, ◌==◌,
}
use audio_rtc_exp.Etcdstate.LiveMeta.{LiveMeta}
use audio_rtc_exp.Etcdstate.Room.{RoomState, empty_room}
use audio_rtc_exp.Mixers.{RoomWatcher, should_be_running, given, process_change}
use audio_rtc_exp.Mixers.Laws.{IsValid}
use audio_rtc_exp.Mixers.Change.{
  process_change-IsValid, process_change_settles, process_change_sticks, process_all, unwanted,
}
use audio_rtc_exp.Mixers.Ports.{IsPair, get_free_rtp_port, get_free_rtp_port-IsPair}

abbrev live : LiveMeta
live = record {
  status = "onair";
  mixer_id = "m1";
  janus_id = "j1";
  created_at = 1;
  discard_at = none;
  nonce = "";
}

abbrev on_air : Option RoomState
on_air = some (record empty_room { live_meta = some live })

abbrev quiet : List Bool → RoomWatcher
quiet fs = record { active_rooms = []; processes = []; mixer_data = []; faults = fs }

quiet-IsValid : (fs : List Bool) → IsValid (quiet fs)
unfolding lookup
quiet-IsValid fs r a e = ground arith

process_change-IsValid_example :
    IsValid (process_change "m1" "10.0.0.1" (some 5000) "r1" on_air (quiet (true ∷ []))).1
process_change-IsValid_example =
    process_change-IsValid "m1" "10.0.0.1" (some 5000) "r1" on_air (quiet (true ∷ []))
      (quiet-IsValid (true ∷ []))

process_change_settles_example :
    ((process_change "m1" "10.0.0.1" (some 5000) "r1" on_air (quiet [])).0 ≡ true)
    × (is_some (
          lookup "r1"
            (process_change "m1" "10.0.0.1" (some 5000) "r1" on_air (quiet [])).1.active_rooms)
        ≡ should_be_running "m1" (given on_air))
unfolding lookup
process_change_settles_example =
    process_change_settles "m1" "10.0.0.1" 5000 "r1" on_air (quiet []) (quiet-IsValid []) refl
      (λ e. refl)

abbrev writes_fail : RoomWatcher
writes_fail = quiet (false ∷ false ∷ false ∷ true ∷ [])

abbrev later : List (Option ℕ × Option RoomState)
later = (some 5002, on_air) ∷ (some 5004, none) ∷ (none, on_air) ∷ []

process_change_sticks_example :
    process_all "m1" "10.0.0.1" "r1" later
      (process_change "m1" "10.0.0.1" (some 5000) "r1" on_air writes_fail).1
    ≡ (
      false ∷ true ∷ false ∷ [],
      (process_change "m1" "10.0.0.1" (some 5000) "r1" on_air writes_fail).1,
    )
unfolding lookup should_be_running given unwanted
process_change_sticks_example =
    process_change_sticks "m1" "10.0.0.1" 5000 "r1" on_air writes_fail [] refl refl refl refl later

-- Every port but 5000 is free.
abbrev free : ℕ → Bool
free p = not (p == 5000)

get_free_rtp_port-IsPair_example :
    IsPair free 5002
    × (((5000 ≤ 5002 + 5000 % 2) × (5002 + 1 ≤ 5010)) ⊎ ((49152 ≤ 5002) × (5002 + 1 ≤ 65535)))
unfolding get_free_rtp_port
get_free_rtp_port-IsPair_example =
    get_free_rtp_port-IsPair free 5000 5010 (1 ∷ 3 ∷ []) [] 5002 tt refl
