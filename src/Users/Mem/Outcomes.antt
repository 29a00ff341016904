-- ===== src/Users/Mem/Outcomes.antt =====
-- How createRoomUser, setUserStatus and removeRoomUser may end, with what each end does.
use audio_rtc_exp.Prelude.{
  ◌≡◌, refl, inl, inr, String, [], none, some, Map, lookup, lookup-nil, true, false, Bool,
  Option-cases, Bool-cases, ◌==◌, string_eq, if◌then◌else◌,
}
use audio_rtc_exp.Users.{User}
use audio_rtc_exp.Users.Mem.{
  RoomsStateMem, enter_room, create_room_user, write_status, set_user_status, leave_room,
  remove_room_user, get_room_users,
}
use audio_rtc_exp.Users.Mem.Laws.{member}

module _ (room_id user_id : String) (r : RoomsStateMem) where
  pub data Creates (u : User) : Type 0 where
    present : create_room_user room_id user_id u r ≡ (false, r) → Creates u
    enters :
        (room : Map User)
        → get_room_users room_id r ≡ room
        → ((j : String) → member room_id j r.rooms ≡ lookup j room)
        → lookup user_id room ≡ none
        → create_room_user room_id user_id u r ≡ (true, enter_room room_id user_id u room r)
        → Creates u

  pub create_room_user-Creates : (u : User) → Creates u
  unfolding create_room_user get_room_users
  create_room_user-Creates u = elim (Option-cases (lookup room_id r.rooms)) [
    | inl e ↦
        enters [] (rw (e, get_room_users)) (λ j. rw (e, member, lookup-nil j)) (lookup-nil user_id)
          (rw (e, create_room_user))
    | inr (room, e) ↦ elim (Option-cases (lookup user_id room)) [
      | inl f ↦
          enters room (rw (e, get_room_users)) (λ j. rw (e, member)) f (rw (e, create_room_user, f))
      | inr (ou, f) ↦ present (rw (e, create_room_user, f))
    ]
  ]

  -- The caller's `u` after the call.
  abbrev pub stamped : User → User
  stamped u = if u.status == "" then record u { ts = 0 } else u

  pub data Sets (u : User) : Type 0 where
    skips : set_user_status room_id user_id u r ≡ (false, r, u) → Sets u
    writes :
        (room : Map User) (ou : User)
        → lookup room_id r.rooms ≡ some room
        → lookup user_id room ≡ some ou
        → set_user_status room_id user_id u r
          ≡ (true, write_status room_id user_id u room ou r, stamped u)
        → Sets u

  pub set_user_status-Sets : (u : User) → Sets u
  unfolding set_user_status
  set_user_status-Sets u = elim (Option-cases (lookup room_id r.rooms)) [
    | inl e ↦ skips (rw (e, set_user_status))
    | inr (room, e) ↦ elim (Option-cases (lookup user_id room)) [
      | inl f ↦ skips (rw (e, set_user_status, f))
      | inr (ou, f) ↦ elim (Bool-cases (ou.role == "")) [
        | inl g ↦ skips (rw (e, set_user_status, f, g))
        | inr g ↦ writes room ou e f (rw (e, set_user_status, f, g))
      ]
    ]
  ]

  pub data Removes : Type 0 where
    unknown : remove_room_user room_id user_id r ≡ (false, false, r) → Removes
    leaves :
        (room : Map User) (ou : User) (last_user : Bool)
        → lookup room_id r.rooms ≡ some room
        → lookup user_id room ≡ some ou
        → (leave_room room_id user_id room r).0 ≡ last_user
        → remove_room_user room_id user_id r
          ≡ (true, last_user, (leave_room room_id user_id room r).1)
        → Removes

  pub remove_room_user-Removes : Removes
  unfolding remove_room_user
  remove_room_user-Removes = elim (Option-cases (lookup room_id r.rooms)) [
    | inl e ↦ unknown (rw (e, remove_room_user))
    | inr (room, e) ↦ elim (Option-cases (lookup user_id room)) [
      | inl f ↦ unknown (rw (e, remove_room_user, f))
      | inr (ou, f) ↦ leaves room ou _ e f refl (rw (e, remove_room_user, f))
    ]
  ]
