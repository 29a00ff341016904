-- ===== src/Users/Combine/Agree.antt =====
-- Memory and Redis tell the same: CreateUser, UpdateUserStatus and RemoveUser keep them in agreement
-- as long as no call to Redis fails.
use audio_rtc_exp.Prelude.{
  ◌≡◌, refl, inl, inr, String, [], Option, none, some, arith, eq_iff, Map, lookup, insert, delete,
  Bool, true, false, lookup-insert, lookup-delete, ◌==◌, string_eq, nat_eq, if◌then◌else◌,
  Bool-cases, string_eq_refl, lookup_empty,
}
use audio_rtc_exp.Zset.{Item}
use audio_rtc_exp.Zset.Laws.{lookup-put, lookup-remove}
use audio_rtc_exp.Users.{User}
use audio_rtc_exp.Users.Mem.{RoomsStateMem, enter_room, write_status, leave_room}
use audio_rtc_exp.Users.Mem.Laws.{member, member-insert, member-delete}
use audio_rtc_exp.Users.Mem.Outcomes.{
  present, enters, create_room_user-Creates, stamped, skips, writes, set_user_status-Sets, unknown,
  leaves, remove_room_user-Removes,
}
use audio_rtc_exp.Users.Redis.{
  Strconv, Result, ok, hash, rooms_key, user_status_key, status_field, meta_field, pack_status,
  unix,
}
use audio_rtc_exp.Users.Redis.Calls.{create_alive, set_alive, remove_alive}
use audio_rtc_exp.Users.Redis.Keys.{
  status-meta, meta-status, rooms-user_status, user_status-rooms, status-status, meta-meta,
  user_status-user_status, hash-insert,
}
use audio_rtc_exp.Users.Combine.{CombinedRoom, create_user, update_user_status, remove_user}

module _ (conv : Strconv) (prefix : String) where
  -- What Redis should hold of a user: the role, and the packed status if there is one.
  abbrev pub role_text : Option User → Option String
  role_text none = none
  role_text (some u) = some u.role

  abbrev pub status_text : Option User → Option String
  status_text none = none
  status_text (some u) = if u.status == "" then none else some (pack_status conv u)

  abbrev pub track_text : Option (Item String) → Option String
  track_text none = none
  track_text (some i) = some (conv.format_int (unix i.ts))

  -- Redis holds the role and the status of each member and the time of each room, and nothing of
  -- others.
  pub record Agrees (m : RoomsStateMem) (h : Map (Map String)) : Type 0 where
    pub roles :
        (k j : String)
        → lookup (meta_field j) (hash (user_status_key prefix k) h) ≡ role_text (member k j m.rooms)
    pub statuses :
        (k j : String)
        → lookup (status_field j) (hash (user_status_key prefix k) h)
          ≡ status_text (member k j m.rooms)
    pub tracks :
        (k : String)
        → lookup k (hash (rooms_key prefix) h) ≡ track_text (lookup k m.room_tracks.items)

  -- What the fault-free calls leave in the hashes.
  abbrev created : String → String → User → Map (Map String) → Map (Map String)
  created room_id user_id u h =
      let key = user_status_key prefix room_id in
      let g : Map (Map String) =
        insert (rooms_key prefix)
          (insert room_id (conv.format_int (unix u.ts)) (hash (rooms_key prefix) h)) h in
      insert key (insert (meta_field user_id) u.role (hash key g)) g

  module _ (room_id user_id : String) (u : User) (room : Map User) (m : RoomsStateMem)
      (h : Map (Map String)) (a : Agrees m h)
      (known : (j : String) → member room_id j m.rooms ≡ lookup j room)
      (absent : lookup user_id room ≡ none) where
    created-Agrees : Agrees (enter_room room_id user_id u room m) (created room_id user_id u h)
    unfolding enter_room
    created-Agrees =
        let entered : User = record { role = u.role; status = ""; ts = 0; gen = u.gen } in
        let n = insert user_id entered room in
        let key = user_status_key prefix room_id in
        let rooms = insert room_id (conv.format_int (unix u.ts)) (hash (rooms_key prefix) h) in
        let g : Map (Map String) = insert (rooms_key prefix) rooms h in
        let us = insert (meta_field user_id) u.role (hash key g) in
        record {
          roles = λ k j. ground (
            arith,
            eq_iff room_id k,
            hash-insert key (user_status_key prefix k) us g,
            hash-insert (rooms_key prefix) (user_status_key prefix k) rooms h,
            user_status-user_status prefix room_id k,
            rooms-user_status prefix k,
            lookup-insert (meta_field user_id) (meta_field j) u.role (hash key g),
            meta-meta user_id j,
            member-insert room_id k j n m.rooms,
            lookup-insert user_id j entered room,
            known j,
            a.roles k j,
          );
          statuses = λ k j. ground (
            arith,
            eq_iff room_id k,
            eq_iff user_id j,
            hash-insert key (user_status_key prefix k) us g,
            hash-insert (rooms_key prefix) (user_status_key prefix k) rooms h,
            user_status-user_status prefix room_id k,
            rooms-user_status prefix k,
            lookup-insert (meta_field user_id) (status_field j) u.role (hash key g),
            meta-status user_id j,
            member-insert room_id k j n m.rooms,
            lookup-insert user_id j entered room,
            known j,
            string_eq_refl "",
            a.statuses k j,
          );
          tracks = λ k. ground (
            arith,
            eq_iff room_id k,
            hash-insert key (rooms_key prefix) us g,
            hash-insert (rooms_key prefix) (rooms_key prefix) rooms h,
            user_status-rooms prefix room_id,
            string_eq_refl (rooms_key prefix),
            lookup-insert room_id k (conv.format_int (unix u.ts)) (hash (rooms_key prefix) h),
            lookup-put room_id k "" u.ts m.room_tracks,
            a.tracks k,
          );
        }

  module _ (room_id user_id : String) (room : Map User) (m : RoomsStateMem) (h : Map (Map String))
      (a : Agrees m h) (here : lookup room_id m.rooms ≡ some room) (ou : User)
      (found : lookup user_id room ≡ some ou) where
    abbrev own_key : String
    own_key = user_status_key prefix room_id

    module _ (u : User) where
      abbrev written : Map String
      written =
          if u.status == ""
          then delete (status_field user_id) (hash own_key h)
          else insert (status_field user_id) (pack_status conv u) (hash own_key h)

      updated : User
      updated = record ou { status = u.status; gen = u.gen; ts = u.ts }

      lookup-written_meta :
          (j : String) → lookup (meta_field j) written ≡ lookup (meta_field j) (hash own_key h)
      lookup-written_meta j = ground (
        arith,
        status-meta user_id j,
        lookup-insert (status_field user_id) (meta_field j) (pack_status conv u) (hash own_key h),
        lookup-delete (status_field user_id) (meta_field j) (hash own_key h),
      )

      lookup-written_status :
          (j : String)
          → lookup (status_field j) written ≡ (
              if user_id == j
              then (if u.status == "" then none else some (pack_status conv u))
              else lookup (status_field j) (hash own_key h))
      lookup-written_status j = ground (
        arith,
        status-status user_id j,
        lookup-insert (status_field user_id) (status_field j) (pack_status conv u) (hash own_key h),
        lookup-delete (status_field user_id) (status_field j) (hash own_key h),
      )

      pack-updated : pack_status conv updated ≡ pack_status conv u
      unfolding pack_status updated
      pack-updated = refl

      written-Agrees : Agrees (write_status room_id user_id u room ou m) (insert own_key written h)
      unfolding write_status updated
      written-Agrees =
          let n = insert user_id updated room in
          record {
            roles = λ k j. ground (
              arith,
              eq_iff room_id k,
              eq_iff user_id j,
              hash-insert own_key (user_status_key prefix k) written h,
              user_status-user_status prefix room_id k,
              lookup-written_meta j,
              member-insert room_id k j n m.rooms,
              lookup-insert user_id j updated room,
              a.roles k j,
            );
            statuses = λ k j. ground (
              arith,
              eq_iff room_id k,
              hash-insert own_key (user_status_key prefix k) written h,
              user_status-user_status prefix room_id k,
              lookup-written_status j,
              pack-updated,
              member-insert room_id k j n m.rooms,
              lookup-insert user_id j updated room,
              a.statuses k j,
            );
            tracks = λ k. ground (
              arith,
              hash-insert own_key (rooms_key prefix) written h,
              user_status-rooms prefix room_id,
              a.tracks k,
            );
          }

    -- HDel of both fields of the user.
    abbrev cleared : Map String
    cleared = delete (meta_field user_id) (delete (status_field user_id) (hash own_key h))

    lookup-cleared_meta :
        (j : String)
        → lookup (meta_field j) cleared
          ≡ (if user_id == j then none else lookup (meta_field j) (hash own_key h))
    lookup-cleared_meta j = ground (
      arith,
      status-meta user_id j,
      meta-meta user_id j,
      lookup-delete (meta_field user_id) (meta_field j)
          (delete (status_field user_id) (hash own_key h)),
      lookup-delete (status_field user_id) (meta_field j) (hash own_key h),
    )

    lookup-cleared_status :
        (j : String)
        → lookup (status_field j) cleared
          ≡ (if user_id == j then none else lookup (status_field j) (hash own_key h))
    lookup-cleared_status j = ground (
      arith,
      meta-status user_id j,
      status-status user_id j,
      lookup-delete (meta_field user_id) (status_field j)
          (delete (status_field user_id) (hash own_key h)),
      lookup-delete (status_field user_id) (status_field j) (hash own_key h),
    )

    abbrev untracked : Bool → Map (Map String)
    untracked false = insert own_key cleared h
    untracked true =
        insert (rooms_key prefix)
          (delete room_id (hash (rooms_key prefix) (insert own_key cleared h)))
          (insert own_key cleared h)

    member-left :
        (k j : String)
        → member k j (leave_room room_id user_id room m).1.rooms ≡ (
            if room_id == k
            then (if user_id == j then none else lookup j room)
            else member k j m.rooms)
    unfolding leave_room
    member-left k j = ground (
      arith,
      eq_iff room_id k,
      member-insert room_id k j (delete user_id room) m.rooms,
      member-delete room_id k j m.rooms,
      lookup-delete user_id j room,
      lookup_empty j (delete user_id room),
    )

    hash-untracked :
        (l : Bool) (k : String)
        → hash (user_status_key prefix k) (untracked l)
          ≡ (if room_id == k then cleared else hash (user_status_key prefix k) h)
    hash-untracked l k = ground (
      arith,
      hash-insert own_key (user_status_key prefix k) cleared h,
      hash-insert (rooms_key prefix) (user_status_key prefix k)
          (delete room_id (hash (rooms_key prefix) (insert own_key cleared h)))
          (insert own_key cleared h),
      user_status-user_status prefix room_id k,
      rooms-user_status prefix k,
    )

    lookup-untracked :
        (l : Bool) (k : String)
        → lookup k (hash (rooms_key prefix) (untracked l)) ≡ (
            if room_id == k
            then (if l then none else lookup k (hash (rooms_key prefix) h))
            else lookup k (hash (rooms_key prefix) h))
    lookup-untracked l k = ground (
      arith,
      hash-insert own_key (rooms_key prefix) cleared h,
      hash-insert (rooms_key prefix) (rooms_key prefix)
          (delete room_id (hash (rooms_key prefix) (insert own_key cleared h)))
          (insert own_key cleared h),
      user_status-rooms prefix room_id,
      string_eq_refl (rooms_key prefix),
      lookup-delete room_id k (hash (rooms_key prefix) (insert own_key cleared h)),
    )

    left-Agrees :
        Agrees
          (leave_room room_id user_id room m).1
          (untracked (leave_room room_id user_id room m).0)
    left-Agrees =
        let l = (leave_room room_id user_id room m).0 in
        record {
          roles = λ k j. ground (
            arith,
            eq_iff room_id k,
            hash-untracked l k,
            lookup-cleared_meta j,
            member-left k j,
            a.roles k j,
          );
          statuses = λ k j. ground (
            arith,
            eq_iff room_id k,
            hash-untracked l k,
            lookup-cleared_status j,
            member-left k j,
            a.statuses k j,
          );
          tracks = λ k.
              unfold leave_room in
              ground (
                arith,
                eq_iff room_id k,
                lookup-untracked l k,
                lookup-remove room_id k m.room_tracks,
                a.tracks k,
              );
        }

  -- The state agrees, the context of Redis is alive, and the method reported no error.
  pub record InStep (r : Result (Unit {0})) (c : CombinedRoom) : Type 0 where
    pub agrees : Agrees c.mem_state c.redis_state.hashes
    pub alive : c.redis_state.faults ≡ []
    pub reported : r ≡ ok tt

  -- Redis gets the caller's `u` after setUserStatus, which writes the same.
  stamped-write :
      (room_id user_id : String) (r : RoomsStateMem) (u : User) (m : Map String)
      → (if (stamped room_id user_id r u).status == ""
          then delete (status_field user_id) m
          else insert (status_field user_id) (pack_status conv (stamped room_id user_id r u)) m)
        ≡ (if u.status == ""
            then delete (status_field user_id) m
            else insert (status_field user_id) (pack_status conv u) m)
  stamped-write room_id user_id r u m = ground arith

  module _ (room_id user_id : String) (c : CombinedRoom) (alive : c.redis_state.faults ≡ [])
      (a : Agrees c.mem_state c.redis_state.hashes) where
    -- If memory and Redis agree and no call to Redis fails, they agree after CreateUser, which
    -- reports no error.
    pub create_user-InStep :
        (u : User) → let r = create_user conv prefix room_id user_id u c in InStep r.1 r.2
    unfolding create_user
    create_user-InStep u = elim (create_room_user-Creates room_id user_id c.mem_state u) [
      | present e ↦ simp e (record { agrees = a; alive = alive; reported = refl })
      | enters room all known absent e ↦
          simp (e, create_alive conv prefix room_id user_id c.redis_state alive u)
            (record {
              agrees =
                  created-Agrees room_id user_id u room c.mem_state c.redis_state.hashes a known
                    absent;
              alive = refl;
              reported = refl;
            })
    ]

    -- If memory and Redis agree and no call to Redis fails, they agree after UpdateUserStatus,
    -- which reports no error.
    pub update_user_status-InStep :
        (u : User) → let r = update_user_status conv prefix room_id user_id u c in InStep r.1 r.2
    unfolding update_user_status
    update_user_status-InStep u = elim (set_user_status-Sets room_id user_id c.mem_state u) [
      | skips e ↦ simp e (record { agrees = a; alive = alive; reported = refl })
      | writes room ou e f w ↦
          let b = written-Agrees room_id user_id room c.mem_state c.redis_state.hashes a e ou f u in
          let run = set_alive conv prefix room_id user_id c.redis_state alive in
          simp (w, run, stamped-write room_id user_id c.mem_state u)
            (record { agrees = b; alive = refl; reported = refl })
    ]

    -- If memory and Redis agree and no call to Redis fails, they agree after RemoveUser, which
    -- reports no error.
    pub remove_user-InStep : let r = remove_user conv prefix room_id user_id c in InStep r.1 r.2
    unfolding remove_user
    remove_user-InStep = elim (remove_room_user-Removes room_id user_id c.mem_state) [
      | unknown e ↦ simp e (record { agrees = a; alive = alive; reported = refl })
      | leaves room ou l e f g w ↦
          let b = left-Agrees room_id user_id room c.mem_state c.redis_state.hashes a e ou f in
          let run = remove_alive conv prefix room_id user_id c.redis_state alive in
          elim (Bool-cases l) [
            | inl t ↦
                simp (w, t, run)
                  (record { agrees = simp (g, t) at b; alive = refl; reported = refl })
            | inr t ↦
                simp (w, t, run)
                  (record { agrees = simp (g, t) at b; alive = refl; reported = refl })
          ]
    ]
