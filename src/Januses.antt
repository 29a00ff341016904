-- ===== src/Januses.antt =====
-- backend/januses/watcher/room_watcher.go: a Janus manager keeps a Janus room for each room that it
-- serves, and a forwarder to the room's mixer. Janus itself is a list of answers, one for each call;
-- the calls are recorded. A write to etcd asks `faults`. The clock and the random draws are arguments.
pub mod Monitor
pub mod Rebuild
pub mod Leaks
pub mod Settles
pub mod Restart
mod Tests
use audio_rtc_exp.Prelude.{
  ℕ, zero, suc, ◌+◌, String, List, [], ◌∷◌, ◌++◌, Option, none, some, Map, lookup, insert, delete,
  ◌==◌, string_eq, nat_eq, if◌then◌else◌, Bool, true, false, not, ◌&&◌, is_some,
}
use audio_rtc_exp.Etcdstate.{room_status_on_air}
use audio_rtc_exp.Etcdstate.Meta.{Meta}
use audio_rtc_exp.Etcdstate.LiveMeta.{LiveMeta}
use audio_rtc_exp.Etcdstate.Mixer.{Mixer}
use audio_rtc_exp.Etcdstate.Janus.{Janus}
use audio_rtc_exp.Etcdstate.Room.{RoomState, get_meta, get_live_meta, get_mixer}

pub record ActiveRoom : Type 0 where
  pub janus_room_id : ℕ
  pub stream_id : ℕ
  pub fw_ip : String
  pub fw_port : ℕ

-- The calls of janus.Admin.
pub data AdminCall : Type 0 where
  creates : ℕ → String → String → AdminCall
  destroys : ℕ → AdminCall
  forwards : ℕ → String → ℕ → AdminCall
  stops : ℕ → ℕ → AdminCall

-- The answer to a call: no error, with the stream id that Janus gives, ErrAlreadyExisted,
-- ErrNotFound or another error.
pub data Answer : Type 0 where
  fine : ℕ → Answer
  already_existed : Answer
  not_found : Answer
  other_error : Answer

-- `statuses` is what etcd holds under the `janus` keys of the rooms.
pub record RoomWatcher : Type 0 where
  pub active_rooms : Map ActiveRoom
  pub statuses : Map Janus
  pub calls : List AdminCall
  pub answers : List Answer
  pub faults : List Bool

-- The answer is none for an error.
abbrev pub M : Type 0 → Type 0
M A = RoomWatcher → Option A × RoomWatcher

abbrev pub pass : {A B : Type 0} → (A → M B) → Option A × RoomWatcher → Option B × RoomWatcher
pass k (none, w) = (none, w)
pass k (some a, w) = k a w

infixl 5 ◌>>=◌
abbrev pub ◌>>=◌ : {A B : Type 0} → M A → (A → M B) → M B
m >>= k = λ w. pass k (m w)

abbrev pub answer : {A : Type 0} → A → M A
answer a w = (some a, w)

abbrev pub fail : {A : Type 0} → M A
fail w = (none, w)

-- A call of Janus. Without an answer it times out.
unfoldable pub admin : AdminCall → RoomWatcher → Answer × RoomWatcher
admin c w = elim w.answers [
  | [] ↦ (other_error, record w { calls = w.calls ++ (c ∷ []) })
  | a ∷ more ↦ (a, record w { calls = w.calls ++ (c ∷ []); answers = more })
]

-- A write to etcd.
unfoldable pub write : (Map Janus → Map Janus) → M (Unit {0})
write f w = elim w.faults [
  | [] ↦ (some tt, record w { statuses = f w.statuses })
  | false ∷ fs ↦ (some tt, record w { statuses = f w.statuses; faults = fs })
  | true ∷ fs ↦ (none, record w { faults = fs })
]

abbrev pub store_room : String → ActiveRoom → M (Unit {0})
store_room room_id a w = (some tt, record w { active_rooms = insert room_id a w.active_rooms })

abbrev pub forget_room : String → M (Unit {0})
forget_room room_id w = (some tt, record w { active_rooms = delete room_id w.active_rooms })

abbrev pub max_room_creation_attempts : ℕ
max_room_creation_attempts = 5

module _ (janus_id : String) where
  unfoldable pub update_janus_status : ℕ → String → ℕ → String → M (Unit {0})
  unfolding write
  update_janus_status now room_id janus_room_id status =
      if not (status == "")
      then write (
          insert room_id (record {
            janus_id = janus_id;
            status = status;
            timestamp = now;
            janus_room_id = janus_room_id;
          }))
      else write (delete room_id)

-- What follows the answer to the creation of a room; `again` is the next attempt.
unfoldable pub created : ℕ → M ℕ → Answer × RoomWatcher → Option ℕ × RoomWatcher
created janus_room_id again (fine n, w) = (some janus_room_id, w)
created janus_room_id again (already_existed, w) = again w
created janus_room_id again (_, w) = (none, w)

-- `draw` answers the random number of an attempt; the attempts that are left are counted.
unfoldable pub create_room_attempts : (ℕ → Option ℕ) → ℕ → String → String → M ℕ
unfolding created admin
create_room_attempts draw zero room_id pin w = (none, w)
create_room_attempts draw (suc n) room_id pin w = elim (draw n) [
  | none ↦ (none, w)
  | some rand_num ↦
      created (100000 + rand_num) (create_room_attempts draw n room_id pin)
        (admin (creates (100000 + rand_num) room_id pin) w)
]

abbrev pub create_room : (ℕ → Option ℕ) → String → String → M ℕ
create_room draw = create_room_attempts draw max_room_creation_attempts

-- ErrNotFound counts as done.
unfoldable pub done_or_missing : Answer × RoomWatcher → Option (Unit {0}) × RoomWatcher
done_or_missing (fine n, w) = (some tt, w)
done_or_missing (not_found, w) = (some tt, w)
done_or_missing (_, w) = (none, w)

unfoldable pub destroy_room : ℕ → M (Unit {0})
unfolding done_or_missing admin
destroy_room janus_room_id w = done_or_missing (admin (destroys janus_room_id) w)

-- CreateRTPForwarder: a stream id of 0 is an error.
unfoldable pub streamed : Answer × RoomWatcher → Option ℕ × RoomWatcher
streamed (fine n, w) = (if n == 0 then none else some n, w)
streamed (_, w) = (none, w)

-- The room is the entry of the map, which the code changes in place.
unfoldable pub create_rtp_forwarder : String → ActiveRoom → String → ℕ → M (Unit {0})
unfolding streamed admin
create_rtp_forwarder room_id a fw_ip fw_port =
    if a.janus_room_id == 0
    then answer tt
    else (λ w. streamed (admin (forwards a.janus_room_id fw_ip fw_port) w)) >>= (λ stream_id.
        store_room room_id (record a { stream_id = stream_id; fw_ip = fw_ip; fw_port = fw_port }))

abbrev pub without_forwarder : ActiveRoom → ActiveRoom
without_forwarder a = record a { stream_id = 0; fw_ip = ""; fw_port = 0 }

unfoldable pub stop_rtp_forwarder : String → ActiveRoom → M (Unit {0})
unfolding done_or_missing admin
stop_rtp_forwarder room_id a =
    (λ w. done_or_missing (admin (stops a.janus_room_id a.stream_id) w)) >>= λ _.
    store_room room_id (without_forwarder a)

module _ (janus_id : String) where
  unfoldable pub is_assigned_to_us : Option RoomState → Bool
  unfolding get_meta get_live_meta
  is_assigned_to_us st = elim (get_meta st) [
    | none ↦ false
    | some meta ↦ elim (get_live_meta st) [
      | none ↦ false
      | some livemeta ↦ livemeta.janus_id == janus_id && livemeta.status == room_status_on_air
    ]
  ]

  -- The end of the forwarder that the state asks for.
  unfoldable pub endpoint : Option RoomState → Option (String × ℕ)
  unfolding is_assigned_to_us get_mixer
  endpoint st =
      if is_assigned_to_us st
      then elim (get_mixer st) [
        | none ↦ none
        | some mixer ↦ if mixer.port == 0 then none else some (mixer.ip, mixer.port)
      ]
      else none

  unfoldable pub pin_of : Option RoomState → String
  unfolding get_meta
  pin_of st = elim (get_meta st) [ none ↦ "" | some meta ↦ meta.pin ]

  -- The first switch: the active room to go on with, or none to return.
  unfoldable pub ensure_room :
      ℕ → (ℕ → Option ℕ) → String → Option RoomState → M (Option ActiveRoom)
  unfolding is_assigned_to_us pin_of create_room_attempts update_janus_status destroy_room
  ensure_room now draw room_id st w = elim (lookup room_id w.active_rooms) [
    | none ↦
        (if is_assigned_to_us st
            then create_room draw room_id (pin_of st) >>= (λ janus_room_id.
              update_janus_status janus_id now room_id janus_room_id "room_created" >>= λ _.
              let room : ActiveRoom = record {
                janus_room_id = janus_room_id;
                stream_id = 0;
                fw_ip = "";
                fw_port = 0;
              } in
              store_room room_id room >>= λ _. answer (some room))
            else answer none)
          w
    | some room ↦
        (if is_assigned_to_us st
            then answer (some room)
            else destroy_room room.janus_room_id >>= (λ _.
              update_janus_status janus_id now room_id 0 "" >>= λ _.
              forget_room room_id >>= λ _. answer none))
          w
  ]

  -- The second switch. `room.stream_id` is not 0 exactly if the room has a forwarder.
  unfoldable pub ensure_forwarder : ℕ → String → Option (String × ℕ) → ActiveRoom → M (Unit {0})
  unfolding create_rtp_forwarder stop_rtp_forwarder update_janus_status
  ensure_forwarder now room_id none room =
      if room.stream_id == 0
      then answer tt
      else stop_rtp_forwarder room_id room
        >>= (λ _. update_janus_status janus_id now room_id room.janus_room_id "not_forwarding")
  ensure_forwarder now room_id (some (ip, port)) room =
      if room.stream_id == 0
      then create_rtp_forwarder room_id room ip port
        >>= (λ _. update_janus_status janus_id now room_id room.janus_room_id "forwarding")
      else if room.fw_ip == ip && room.fw_port == port
      then answer tt
      else stop_rtp_forwarder room_id room >>= (λ _.
        create_rtp_forwarder room_id (without_forwarder room) ip port >>= λ _.
        update_janus_status janus_id now room_id room.janus_room_id "forwarding")

  unfoldable pub forward_if : ℕ → String → Option RoomState → Option ActiveRoom → M (Unit {0})
  unfolding ensure_forwarder endpoint
  forward_if now room_id st none = answer tt
  forward_if now room_id st (some room) = ensure_forwarder now room_id (endpoint st) room

  unfoldable pub process_change : ℕ → (ℕ → Option ℕ) → String → Option RoomState → M (Unit {0})
  unfolding ensure_room forward_if
  process_change now draw room_id st = ensure_room now draw room_id st >>= forward_if now room_id st
