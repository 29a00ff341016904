-- ===== src/Users/Control.antt =====
-- backend/users/control/controller.go: the one process that changes rooms. RPC handlers put actions
-- into a queue, and one loop runs them and the timeout checks. A request is `none` where
-- ShouldBindParams refuses it; replies and notifications are recorded in the order in which they
-- are made. Metrics, logs and the transport are left out: a notification that fails is only logged.
pub mod Limit
pub mod Replies
pub mod Runs
use audio_rtc_exp.Prelude.{
  ℕ, Bool, true, false, String, List, [], ◌∷◌, ◌++◌, Option, none, some, ℤ, Map, lookup, length,
  keep, map, leb, ltb, ◌==◌, nat_eq, string_eq, if◌then◌else◌,
}
use audio_rtc_exp.Etcdstate.Meta.{get_max_anchors}
use audio_rtc_exp.Etcdstate.Room.{RoomState, get_meta}
use audio_rtc_exp.Users.{User, is_active}
use audio_rtc_exp.Users.Redis.{Strconv, Result, ok, err}
use audio_rtc_exp.Users.Combine.{
  CombinedRoom, create_user, update_user_status, remove_user, get_room_users,
}
use audio_rtc_exp.Users.Timeout.{Outcome, finished, failed, out_of_fuel, check_timeout}

pub record CreateUserRequest : Type 0 where
  pub room_id : String
  pub user_id : String
  pub role : String
  pub ts : ℕ

pub record DeleteUserRequest : Type 0 where
  pub room_id : String
  pub user_id : String
  pub ts : ℕ

pub record SetStatusUserRequest : Type 0 where
  pub room_id : String
  pub user_id : String
  pub status : String
  pub gen : ℤ
  pub ts : ℕ

-- The actions of the queue, with what their closures capture; the first number is the request that
-- the captured `reply` answers.
pub data UserEvent : Type 0 where
  creates : ℕ → CreateUserRequest → ℕ → UserEvent
  deletes : ℕ → DeleteUserRequest → UserEvent
  sets : ℕ → SetStatusUserRequest → UserEvent

pub data Reply : Type 0 where
  success invalid_params room_not_found max_anchors_reached internal : Reply

pub record RoomUser : Type 0 where
  pub user_id : String
  pub role : String
  pub status : String

pub record NotifyRoomStatus : Type 0 where
  pub room_id : String
  pub members : List RoomUser

-- `senders` are the handlers that wait to send into the full channel, in the order in which they came.
pub record UserStatusControl : Type 0 where
  pub room_state : CombinedRoom
  pub cached_rooms : Map RoomState
  pub user_event_ch : List UserEvent
  pub senders : List UserEvent
  pub replies : List (ℕ × Reply)
  pub notifications : List NotifyRoomStatus

abbrev pub reply : ℕ → Reply → UserStatusControl → UserStatusControl
reply id a c = record c { replies = c.replies ++ (id, a) ∷ [] }

abbrev pub capacity : ℕ
capacity = 10

-- A send into the channel, which waits while the channel is full.
unfoldable pub enqueue : UserEvent → UserStatusControl → UserStatusControl
enqueue e c =
    if ltb (length c.user_event_ch) capacity
    then record c { user_event_ch = c.user_event_ch ++ e ∷ [] }
    else record c { senders = c.senders ++ e ∷ [] }

-- A receive makes room for the sender that has waited longest.
unfoldable pub admit : UserStatusControl → UserStatusControl
admit c = elim c.senders [
  | [] ↦ c
  | e ∷ waiting ↦ record c { user_event_ch = c.user_event_ch ++ e ∷ []; senders = waiting }
]

unfoldable pub handle_create : ℕ → Option CreateUserRequest → UserStatusControl → UserStatusControl
unfolding enqueue
handle_create id none c = reply id invalid_params c
handle_create id (some req) c = elim (lookup req.room_id c.cached_rooms) [
  | none ↦ reply id room_not_found c
  | some room ↦ enqueue (creates id req (get_max_anchors (get_meta (some room)))) c
]

unfoldable pub handle_delete : ℕ → Option DeleteUserRequest → UserStatusControl → UserStatusControl
unfolding enqueue
handle_delete id none c = reply id invalid_params c
handle_delete id (some req) c = enqueue (deletes id req) c

unfoldable pub handle_set_status :
    ℕ → Option SetStatusUserRequest → UserStatusControl → UserStatusControl
unfolding enqueue
handle_set_status id none c = reply id invalid_params c
handle_set_status id (some req) c = enqueue (sets id req) c

-- The members of a notification: the users who are active.
unfoldable pub active_members : ℕ → Map User → List RoomUser
active_members now us =
    map (λ e. record { user_id = e.0; role = e.1.role; status = e.1.status })
      (keep (λ e. is_active now (some e.1)) us)

unfoldable pub notify_user_status : ℕ → String → UserStatusControl → UserStatusControl
unfolding active_members get_room_users
notify_user_status now room_id c =
    let members = active_members now (get_room_users room_id c.room_state) in
    record c {
      notifications = c.notifications ++ record { room_id = room_id; members = members } ∷ [];
    }

-- What follows a change of the state: an error is answered, and a change is told to the room.
unfoldable pub conclude :
    ℕ → ℕ → String → Bool × Result (Unit {0}) × CombinedRoom → UserStatusControl → UserStatusControl
unfolding notify_user_status
conclude id now room_id (found, err, s) c = reply id internal (record c { room_state = s })
conclude id now room_id (found, ok _, s) c =
    let d = record c { room_state = s } in
    reply id success (if found then notify_user_status now room_id d else d)

module _ (conv : Strconv) (prefix : String) (now : ℕ) where
  -- The action of a createUser event.
  unfoldable pub create_action : ℕ → CreateUserRequest → ℕ → UserStatusControl → UserStatusControl
  create_action id req max_anchors c =
      let (_, e, s) =
        create_user conv prefix req.room_id req.user_id
          (record { role = req.role; status = ""; ts = req.ts; gen = ℤ.pos 0 }) c.room_state in
      let answer : Reply = elim e [ err ↦ internal | ok _ ↦ success ] in
      if leb max_anchors (length (get_room_users req.room_id c.room_state))
      then reply id max_anchors_reached c
      else reply id answer (record c { room_state = s })

  -- The loop takes the oldest action.
  unfoldable pub run_event : UserEvent → UserStatusControl → UserStatusControl
  unfolding create_action conclude
  run_event (creates id req max_anchors) c = create_action id req max_anchors c
  run_event (deletes id req) c =
      conclude id now req.room_id (remove_user conv prefix req.room_id req.user_id c.room_state) c
  run_event (sets id req) c =
      conclude id now req.room_id
        (update_user_status conv prefix req.room_id req.user_id
          (record { role = ""; status = req.status; ts = req.ts; gen = req.gen }) c.room_state)
        c

  unfoldable pub process : UserStatusControl → UserStatusControl
  unfolding run_event admit
  process c = elim c.user_event_ch [
    | [] ↦ c
    | e ∷ es ↦ run_event e (admit (record c { user_event_ch = es }))
  ]

  unfoldable pub notify_all : List String → UserStatusControl → UserStatusControl
  unfolding notify_user_status
  notify_all [] c = c
  notify_all (room_id ∷ room_ids) c = notify_all room_ids (notify_user_status now room_id c)

  -- The tick of the expire timer; a check that failed is only logged.
  unfoldable pub tick : UserStatusControl → UserStatusControl
  unfolding check_timeout notify_all
  tick c = elim (check_timeout conv prefix now c.room_state) [
    | finished room_ids s ↦ notify_all room_ids (record c { room_state = s })
    | failed s ↦ record c { room_state = s }
    | out_of_fuel ↦ c
  ]
