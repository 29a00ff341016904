-- ===== src/Users/Mem/Laws.antt =====
-- The invariant of the memory state, and that every operation keeps it.
use audio_rtc_exp.Prelude.{
  ◌≤◌, ◌≡◌, String, Option, none, some, arith, eq_iff, Map, lookup, insert, delete, length, is_some,
  true, lookup-insert, lookup-delete, insert-ne-nil, insert-IsMap, IsMap, ◌==◌, string_eq, nat_eq,
  if◌then◌else◌, string_eq_refl,
}
use audio_rtc_exp.Zset.{Item}
use audio_rtc_exp.Zset.Laws.{lookup-put, lookup-remove, put-IsValid, remove-IsValid}
use audio_rtc_exp.Zset.Laws as Z
use audio_rtc_exp.Users.{User}
use audio_rtc_exp.Users.Mem.{RoomsStateMem, enter_room}

-- The user of a room, if both are there.
abbrev pub member : String → String → Map (Map User) → Option User
member room_id user_id rooms = elim (lookup room_id rooms) [
  | none ↦ none
  | some room ↦ lookup user_id room
]

-- Rooms and users stand once, every room has a user and an expiry, and a tracked user is a member
-- of the room under which it is tracked.
pub record IsValid (r : RoomsStateMem) : Type 0 where
  pub users_ordered : Z.IsValid r.user_tracks
  pub rooms_ordered : Z.IsValid r.room_tracks
  pub rooms_once : IsMap r.rooms
  pub users_once : (k : String) (m : Map User) → lookup k r.rooms ≡ some m → IsMap m
  pub occupied : (k : String) (m : Map User) → lookup k r.rooms ≡ some m → 1 ≤ length m
  pub expiring :
      (k : String) (m : Map User)
      → lookup k r.rooms ≡ some m
      → is_some (lookup k r.room_tracks.items) ≡ true
  pub placed :
      (u : String) (i : Item String)
      → lookup u r.user_tracks.items ≡ some i
      → is_some (member i.payload u r.rooms) ≡ true

-- A write of a whole room changes that room alone.
pub member-insert :
    (k j u : String) (m : Map User) (rooms : Map (Map User))
    → member j u (insert k m rooms) ≡ (if k == j then lookup u m else member j u rooms)
member-insert k j u m rooms = ground (arith, eq_iff k j, lookup-insert k j m rooms)

pub member-delete :
    (k j u : String) (rooms : Map (Map User))
    → member j u (delete k rooms) ≡ (if k == j then none else member j u rooms)
member-delete k j u rooms = ground (arith, eq_iff k j, lookup-delete k j rooms)

module _ (room_id user_id : String) (u : User) (room : Map User) (r : RoomsStateMem) (v : IsValid r)
    (once : IsMap room)
    (known : (j : String)
      → is_some (member room_id j r.rooms) ≡ true
      → is_some (lookup j room) ≡ true) where
  pub enter_room-IsValid : IsValid (enter_room room_id user_id u room r)
  unfolding enter_room
  enter_room-IsValid =
      let entered : User = record { role = u.role; status = ""; ts = 0; gen = u.gen } in
      let m = insert user_id entered room in
      record {
        users_ordered = put-IsValid user_id room_id u.ts r.user_tracks v.users_ordered;
        rooms_ordered = put-IsValid room_id "" u.ts r.room_tracks v.rooms_ordered;
        rooms_once = insert-IsMap room_id m r.rooms v.rooms_once;
        users_once = λ k n e. ground (
          arith,
          lookup-insert room_id k m r.rooms,
          insert-IsMap user_id entered room once,
          v.users_once k n,
        );
        occupied = λ k n e. ground (
          arith,
          lookup-insert room_id k m r.rooms,
          insert-ne-nil user_id entered room,
          v.occupied k n,
        );
        expiring = λ k n e. ground (
          arith,
          lookup-insert room_id k m r.rooms,
          lookup-put room_id k "" u.ts r.room_tracks,
          v.expiring k n,
        );
        placed = λ j i e. ground (
          arith,
          eq_iff user_id j,
          eq_iff room_id i.payload,
          string_eq_refl room_id,
          lookup-put user_id j room_id u.ts r.user_tracks,
          member-insert room_id i.payload j m r.rooms,
          lookup-insert user_id j entered room,
          v.placed j i,
          known j,
        );
      }
