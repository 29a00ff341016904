-- ===== src/Users/Control/Limit.antt =====
-- The limit on the users of a room: no action lets a room grow past the limit of its createUser.
use audio_rtc_exp.Prelude.{
  ℕ, suc, ◌≤◌, ◌≡◌, refl, ◌⊎◌, inl, inr, String, arith, eq_iff, insert, delete, length, true, false,
  Bool, lookup-insert, lookup-delete, length-insert, length-delete-le, ◌==◌, string_eq, nat_eq, leb,
  if◌then◌else◌, Bool-cases, ℤ,
}
use audio_rtc_exp.Users.{User}
use audio_rtc_exp.Users.Mem as Mem
use audio_rtc_exp.Users.Mem.{RoomsStateMem, enter_room, write_status, leave_room}
use audio_rtc_exp.Users.Mem.Outcomes.{
  present, enters, create_room_user-Creates, skips, writes, set_user_status-Sets, unknown, leaves,
  remove_room_user-Removes,
}
use audio_rtc_exp.Users.Redis.{Strconv, Result, ok, err}
use audio_rtc_exp.Users.Combine.{CombinedRoom, create_user, remove_user, get_room_users}
use audio_rtc_exp.Users.Timeout.Turn.{update-mem_state}
use audio_rtc_exp.Users.Control.{
  UserStatusControl, UserEvent, creates, deletes, sets, run_event, conclude,
}

-- How many users a room has.
abbrev pub size : String → RoomsStateMem → ℕ
size k m = length (Mem.get_room_users k m)

create-size :
    (room_id user_id : String) (u : User) (m : RoomsStateMem) (k : String)
    → let n = (Mem.create_room_user room_id user_id u m).1 in
      size k n ≤ (if room_id == k then suc (size k m) else size k m)
unfolding enter_room Mem.get_room_users
create-size room_id user_id u m k = elim (create_room_user-Creates room_id user_id m u) [
  | present e ↦ simp e (ground arith)
  | enters room all known absent e ↦
      let w : User = record { role = u.role; status = ""; ts = 0; gen = u.gen } in
      simp e (
        ground (
          arith,
          eq_iff room_id k,
          all,
          absent,
          lookup-insert room_id k (insert user_id w room) m.rooms,
          length-insert user_id w room,
        ))
]

set-size :
    (room_id user_id : String) (u : User) (m : RoomsStateMem) (k : String)
    → size k (Mem.set_user_status room_id user_id u m).1 ≡ size k m
unfolding write_status Mem.get_room_users
set-size room_id user_id u m k = elim (set_user_status-Sets room_id user_id m u) [
  | skips e ↦ simp e
  | writes room ou here found e ↦
      let w : User = record ou { status = u.status; gen = u.gen; ts = u.ts } in
      simp e (
        ground (
          arith,
          eq_iff room_id k,
          here,
          found,
          lookup-insert room_id k (insert user_id w room) m.rooms,
          length-insert user_id w room,
        ))
]

remove-size :
    (room_id user_id : String) (m : RoomsStateMem) (k : String)
    → size k (Mem.remove_room_user room_id user_id m).2 ≤ size k m
unfolding leave_room Mem.get_room_users
remove-size room_id user_id m k = elim (remove_room_user-Removes room_id user_id m) [
  | unknown e ↦ simp e (omega arith)
  | leaves room ou l here found last e ↦ simp e (
      ground (
        arith,
        eq_iff room_id k,
        here,
        lookup-insert room_id k (delete user_id room) m.rooms,
        lookup-delete room_id k m.rooms,
        length-delete-le user_id room,
      ))
]

-- The room of the event, and what its closure allows.
abbrev pub Allows : UserEvent → String → ℕ → Type 0
Allows (creates id req max_anchors) k n = (req.room_id ≡ k) × (n ≤ max_anchors)
Allows (deletes id req) k n = ⊥
Allows (sets id req) k n = ⊥

module _ (conv : Strconv) (prefix : String) where
  create-mem_state :
      (room_id user_id : String) (u : User) (c : CombinedRoom)
      → (create_user conv prefix room_id user_id u c).2.mem_state
        ≡ (Mem.create_room_user room_id user_id u c.mem_state).1
  unfolding create_user
  create-mem_state room_id user_id u c =
      elim (create_room_user-Creates room_id user_id c.mem_state u) [
        | present e ↦ simp e
        | enters room all known absent e ↦ simp e
      ]

  remove-mem_state :
      (room_id user_id : String) (c : CombinedRoom)
      → (remove_user conv prefix room_id user_id c).2.mem_state
        ≡ (Mem.remove_room_user room_id user_id c.mem_state).2
  unfolding remove_user
  remove-mem_state room_id user_id c = elim (remove_room_user-Removes room_id user_id c.mem_state) [
    | unknown e ↦ simp e
    | leaves room ou l here found last e ↦ simp e
  ]

  conclude-room_state :
      (id now : ℕ) (room_id : String) (r : Bool × Result (Unit {0}) × CombinedRoom)
      (c : UserStatusControl)
      → (conclude id now room_id r c).room_state ≡ r.2
  unfolding conclude
  conclude-room_state id now room_id (found, err, s) c = refl
  conclude-room_state id now room_id (true, ok x, s) c = refl
  conclude-room_state id now room_id (false, ok x, s) c = refl

  -- An action of the queue makes a room larger only if it is a createUser of that room, and then
  -- the room has at most as many users as the limit that the request was given.
  pub run_event_limit :
      (now : ℕ) (e : UserEvent) (k : String) (c : UserStatusControl)
      → let d = run_event conv prefix now e c in
        (size k d.room_state.mem_state ≤ size k c.room_state.mem_state)
        ⊎ Allows e k (size k d.room_state.mem_state)
  unfolding run_event get_room_users
  run_event_limit now (creates id req l) k c =
      elim (Bool-cases (leb l (size req.room_id c.room_state.mem_state))) [
        | inl full ↦ inl (simp full (omega arith))
        | inr room_left ↦
            let u : User = record { role = req.role; status = ""; ts = req.ts; gen = ℤ.pos 0 } in
            let grown = create-size req.room_id req.user_id u c.room_state.mem_state k in
            let same = create-mem_state req.room_id req.user_id u c.room_state in
            simp (room_left, same) (ground (arith, grown, eq_iff req.room_id k))
      ]
  run_event_limit now (deletes id req) k c = inl (
      simp (conclude-room_state, remove-mem_state)
        (remove-size req.room_id req.user_id c.room_state.mem_state k))
  run_event_limit now (sets id req) k c =
      let u : User = record { role = ""; status = req.status; ts = req.ts; gen = req.gen } in
      inl (
        simp (conclude-room_state, update-mem_state)
          (omega (arith, set-size req.room_id req.user_id u c.room_state.mem_state k)))
