-- ===== src/Users/Mem/Preserve.antt =====
-- createRoomUser, setUserStatus and removeRoomUser keep the invariant of the memory state.
use audio_rtc_exp.Prelude.{
  ◌≡◌, inl, inr, String, [], some, arith, eq_iff, Map, lookup, insert, delete, length,
  lookup-insert, lookup-delete, insert-ne-nil, insert-IsMap, delete-IsMap, Option-cases, Bool-cases,
  ◌==◌, string_eq, nat_eq, string_eq_refl, lookup_empty,
}
use audio_rtc_exp.Zset.Laws.{lookup-put, lookup-remove, put-IsValid, remove-IsValid}
use audio_rtc_exp.Users.{User}
use audio_rtc_exp.Users.Mem.{
  RoomsStateMem, create_room_user, write_status, set_user_status, leave_room, remove_room_user,
}
use audio_rtc_exp.Users.Mem.Laws.{IsValid, member-insert, member-delete, enter_room-IsValid}

-- createRoomUser keeps the invariant of the rooms in memory, whether or not it finds the user.
pub create_room_user-IsValid :
    (room_id user_id : String) (u : User) (r : RoomsStateMem)
    → IsValid r
    → IsValid (create_room_user room_id user_id u r).1
unfolding create_room_user
create_room_user-IsValid room_id user_id u r v = elim (Option-cases (lookup room_id r.rooms)) [
  | inl e ↦
      rw (e, create_room_user)
        (enter_room-IsValid room_id user_id u [] r v tt (λ j h. ground arith))
  | inr (room, e) ↦ elim (Option-cases (lookup user_id room)) [
    | inl f ↦
        rw (e, create_room_user, f)
          (enter_room-IsValid room_id user_id u room r v (v.users_once room_id room e)
            (λ j h. ground arith))
    | inr (ou, f) ↦ rw (e, create_room_user, f) v
  ]
]

module _ (room_id user_id : String) (u : User) (room : Map User) (ou : User) (r : RoomsStateMem)
    (v : IsValid r) (here : lookup room_id r.rooms ≡ some room)
    (found : lookup user_id room ≡ some ou) where
  write_status-IsValid : IsValid (write_status room_id user_id u room ou r)
  unfolding write_status
  write_status-IsValid =
      let w : User = record ou { status = u.status; gen = u.gen; ts = u.ts } in
      let m = insert user_id w room in
      record {
        users_ordered = ground (
          arith,
          put-IsValid user_id room_id u.ts r.user_tracks v.users_ordered,
          remove-IsValid user_id r.user_tracks v.users_ordered,
        );
        rooms_ordered = v.rooms_ordered;
        rooms_once = insert-IsMap room_id m r.rooms v.rooms_once;
        users_once = λ k n e. ground (
          arith,
          lookup-insert room_id k m r.rooms,
          insert-IsMap user_id w room (v.users_once room_id room here),
          v.users_once k n,
        );
        occupied = λ k n e. ground (
          arith,
          lookup-insert room_id k m r.rooms,
          insert-ne-nil user_id w room,
          v.occupied k n,
        );
        expiring = λ k n e. ground (
          arith,
          eq_iff room_id k,
          lookup-insert room_id k m r.rooms,
          v.expiring k n,
          v.expiring room_id room here,
        );
        placed = λ j i e. ground (
          arith,
          eq_iff user_id j,
          eq_iff room_id i.payload,
          string_eq_refl room_id,
          lookup-put user_id j room_id u.ts r.user_tracks,
          lookup-remove user_id j r.user_tracks,
          member-insert room_id i.payload j m r.rooms,
          lookup-insert user_id j w room,
          v.placed j i,
        );
      }

  leave_room-IsValid : IsValid (leave_room room_id user_id room r).1
  unfolding leave_room
  leave_room-IsValid = elim (Bool-cases (length (delete user_id room) == 0)) [
    | inl last ↦ rw last (record {
      users_ordered = remove-IsValid user_id r.user_tracks v.users_ordered;
      rooms_ordered = remove-IsValid room_id r.room_tracks v.rooms_ordered;
      rooms_once = delete-IsMap room_id r.rooms v.rooms_once;
      users_once = λ k n e. ground (arith, lookup-delete room_id k r.rooms, v.users_once k n);
      occupied = λ k n e. ground (arith, lookup-delete room_id k r.rooms, v.occupied k n);
      expiring = λ k n e. ground (
        arith,
        lookup-delete room_id k r.rooms,
        lookup-remove room_id k r.room_tracks,
        v.expiring k n,
      );
      placed = λ j i e. ground (
        arith,
        eq_iff room_id i.payload,
        lookup-remove user_id j r.user_tracks,
        member-delete room_id i.payload j r.rooms,
        lookup-delete user_id j room,
        lookup_empty j (delete user_id room),
        v.placed j i,
      );
    })
    | inr more ↦ rw more (record {
      users_ordered = remove-IsValid user_id r.user_tracks v.users_ordered;
      rooms_ordered = v.rooms_ordered;
      rooms_once = insert-IsMap room_id (delete user_id room) r.rooms v.rooms_once;
      users_once = λ k n e. ground (
        arith,
        lookup-insert room_id k (delete user_id room) r.rooms,
        delete-IsMap user_id room (v.users_once room_id room here),
        v.users_once k n,
      );
      occupied = λ k n e.
          ground (arith, lookup-insert room_id k (delete user_id room) r.rooms, v.occupied k n);
      expiring = λ k n e. ground (
        arith,
        eq_iff room_id k,
        lookup-insert room_id k (delete user_id room) r.rooms,
        v.expiring k n,
        v.expiring room_id room here,
      );
      placed = λ j i e. ground (
        arith,
        eq_iff user_id j,
        eq_iff room_id i.payload,
        lookup-remove user_id j r.user_tracks,
        member-insert room_id i.payload j (delete user_id room) r.rooms,
        lookup-delete user_id j room,
        v.placed j i,
      );
    })
  ]

-- setUserStatus keeps the invariant of the rooms in memory, whether or not it applies.
pub set_user_status-IsValid :
    (room_id user_id : String) (u : User) (r : RoomsStateMem)
    → IsValid r
    → IsValid (set_user_status room_id user_id u r).1
unfolding set_user_status
set_user_status-IsValid room_id user_id u r v = elim (Option-cases (lookup room_id r.rooms)) [
  | inl e ↦ rw (e, set_user_status) v
  | inr (room, e) ↦ elim (Option-cases (lookup user_id room)) [
    | inl f ↦ rw (e, set_user_status, f) v
    | inr (ou, f) ↦ elim (Bool-cases (ou.role == "")) [
      | inl g ↦ rw (e, set_user_status, f, g) v
      | inr g ↦
          rw (e, set_user_status, f, g) (write_status-IsValid room_id user_id u room ou r v e f)
    ]
  ]
]

-- removeRoomUser keeps the invariant of the rooms in memory, whether or not it finds the user.
pub remove_room_user-IsValid :
    (room_id user_id : String) (r : RoomsStateMem)
    → IsValid r
    → IsValid (remove_room_user room_id user_id r).2
unfolding remove_room_user
remove_room_user-IsValid room_id user_id r v = elim (Option-cases (lookup room_id r.rooms)) [
  | inl e ↦ rw (e, remove_room_user) v
  | inr (room, e) ↦ elim (Option-cases (lookup user_id room)) [
    | inl f ↦ rw (e, remove_room_user, f) v
    | inr (ou, f) ↦
        rw (e, remove_room_user, f) (leave_room-IsValid room_id user_id ou room ou r v e f)
  ]
]
