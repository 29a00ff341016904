-- ===== src/Users/Mem.antt =====
-- backend/users/room/mem.go: the rooms in memory, and the two sorted sets that track when a user's
-- status and a room run out. The lock and the logger are left out.
pub mod Laws
pub mod Preserve
pub mod Outcomes
use audio_rtc_exp.Prelude.{
  ℕ, zero, Bool, true, false, String, [], Option, none, some, ℤ, Map, lookup, insert, delete,
  length, ◌==◌, nat_eq, string_eq, if◌then◌else◌,
}
use audio_rtc_exp.Zset
use audio_rtc_exp.Zset.{Zset}
use audio_rtc_exp.Users.{User}

pub record RoomsStateMem : Type 0 where
  pub rooms : Map (Map User)
  pub user_tracks : Zset String
  pub room_tracks : Zset String

unfoldable pub add_room_track : String → ℕ → RoomsStateMem → RoomsStateMem
add_room_track room_id ts r = record r { room_tracks = Zset.put room_id "" ts r.room_tracks }

-- The second half of createRoomUser: the user enters the room.
unfoldable pub enter_room : String → String → User → Map User → RoomsStateMem → RoomsStateMem
unfolding add_room_track
enter_room room_id user_id u room r =
    let entered : User = record { role = u.role; status = ""; ts = 0; gen = u.gen } in
    add_room_track room_id u.ts (record r {
      rooms = insert room_id (insert user_id entered room) r.rooms;
      user_tracks = Zset.put user_id room_id u.ts r.user_tracks;
    })

unfoldable pub create_room_user : String → String → User → RoomsStateMem → Bool × RoomsStateMem
unfolding enter_room
create_room_user room_id user_id u r = elim (lookup room_id r.rooms) [
  | none ↦ (true, enter_room room_id user_id u [] r)
  | some room ↦ elim (lookup user_id room) [
    | some ou ↦ (false, r)
    | none ↦ (true, enter_room room_id user_id u room r)
  ]
]

-- The writes of setUserStatus, once the user `ou` is found in `room`.
unfoldable pub write_status :
    String → String → User → Map User → User → RoomsStateMem → RoomsStateMem
write_status room_id user_id u room ou r = record r {
  rooms =
      insert room_id (insert user_id (record ou { status = u.status; gen = u.gen; ts = u.ts }) room)
        r.rooms;
  user_tracks =
      if u.status == ""
      then Zset.remove user_id r.user_tracks
      else Zset.put user_id room_id u.ts r.user_tracks;
}

-- setUserStatus also resets the time of the caller's `u` if the status is empty; the third part of
-- the result is that `u`.
unfoldable pub set_user_status :
    String → String → User → RoomsStateMem → Bool × RoomsStateMem × User
unfolding write_status
set_user_status room_id user_id u r = elim (lookup room_id r.rooms) [
  | none ↦ (false, r, u)
  | some room ↦ elim (lookup user_id room) [
    | none ↦ (false, r, u)
    | some ou ↦ if ou.role == "" then (false, r, u) else (
      true,
      write_status room_id user_id u room ou r,
      if u.status == "" then record u { ts = 0 } else u,
    )
  ]
]

-- The writes of removeRoomUser, once the user is found in `room`; true if the room is now empty.
unfoldable pub leave_room : String → String → Map User → RoomsStateMem → Bool × RoomsStateMem
leave_room room_id user_id room r =
    let left = delete user_id room in
    let tracks = Zset.remove user_id r.user_tracks in
    if length left == 0
    then (
      true,
      record {
        rooms = delete room_id r.rooms;
        user_tracks = tracks;
        room_tracks = Zset.remove room_id r.room_tracks;
      },
    )
    else (false, record r { rooms = insert room_id left r.rooms; user_tracks = tracks })

-- The two results of removeRoomUser, and the state.
unfoldable pub remove_room_user : String → String → RoomsStateMem → Bool × Bool × RoomsStateMem
unfolding leave_room
remove_room_user room_id user_id r = elim (lookup room_id r.rooms) [
  | none ↦ (false, false, r)
  | some room ↦ elim (lookup user_id room) [
    | none ↦ (false, false, r)
    | some ou ↦ let (last_user, s) = leave_room room_id user_id room r in (true, last_user, s)
  ]
]

-- A nil map reads as an empty one.
unfoldable pub get_room_users : String → RoomsStateMem → Map User
get_room_users room_id r = elim (lookup room_id r.rooms) [ none ↦ [] | some room ↦ room ]
