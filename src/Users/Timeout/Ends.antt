-- ===== src/Users/Timeout/Ends.antt =====
-- CheckTimeout ends, keeps the invariant of the memory, and leaves no track that has run out.
use audio_rtc_exp.Prelude.{
  ℕ, zero, suc, ◌<◌, ◌≡◌, refl, ◌⊎◌, inl, inr, String, List, [], some, arith, Map, lookup, insert,
  length, true, false, Bool, nat_eq, map, Bool-cases, lookup_empty,
}
use audio_rtc_exp.Zset
use audio_rtc_exp.Zset.{Zset, Item}
use audio_rtc_exp.Zset.Laws as Z
use audio_rtc_exp.Zset.Drain.{IsEarliest}
use audio_rtc_exp.Zset.Sizes.{empty, heads, Heads_total}
use audio_rtc_exp.Users.{since_lt, user_status_timeout, room_max_ttl}
use audio_rtc_exp.Users.Mem.Laws.{IsValid}
use audio_rtc_exp.Users.Redis as Redis
use audio_rtc_exp.Users.Redis.{Strconv, Result, ok, err}
use audio_rtc_exp.Users.Combine.{CombinedRoom, update_user_status}
use audio_rtc_exp.Users.Timeout.{
  Outcome, finished, failed, out_of_fuel, cleared_user, pop_user, pop_room, drop_room, user_loop,
  drop_in_redis, room_loop, check_timeout, report, then_rooms,
}
use audio_rtc_exp.Users.Timeout.Turn.{
  turn-lt, turn-IsValid, pop_user-IsValid, lookup-drop_room, dropped, dropped-IsValid,
}

-- Every track lies within the time allowed.
abbrev pub AllWithin : ℕ → ℕ → Zset String → Type 0
AllWithin now d z =
    (k : String) (i : Item String) → lookup k z.items ≡ some i → since_lt now i.ts d ≡ true

within-empty : (now d : ℕ) (z : Zset String) → Z.IsValid z → length z.items ≡ 0 → AllWithin now d z
within-empty now d z v e k i l = ground (arith, lookup_empty k z.items e)

within-head :
    (now d : ℕ) (z : Zset String) (i : Item String)
    → IsEarliest i z
    → since_lt now i.ts d ≡ true
    → AllWithin now d z
within-head now d z i first e k j l = ground (arith, first.least k j l)

-- The loop returned, with the invariant and, unless Redis failed, with `P`.
abbrev pub Ends : {A : Type 0} → (CombinedRoom → Type 0) → Outcome A → Type 0
Ends P (finished a c) = IsValid c.mem_state × P c
Ends P (failed c) = IsValid c.mem_state
Ends P out_of_fuel = ⊥

abbrev pub UsersWithin : ℕ → CombinedRoom → Type 0
UsersWithin now c = AllWithin now user_status_timeout c.mem_state.user_tracks

abbrev pub RoomsWithin : ℕ → CombinedRoom → Type 0
RoomsWithin now c = AllWithin now room_max_ttl c.mem_state.room_tracks

pub Result-cases : (e : Result (Unit {0})) → (e ≡ err) ⊎ (e ≡ ok tt)
Result-cases err = inl refl
Result-cases (ok tt) = inr refl

module _ (conv : Strconv) (prefix : String) (now : ℕ) where
  abbrev act : Item String → CombinedRoom → Bool × Result (Unit {0}) × CombinedRoom
  act i c = update_user_status conv prefix i.payload i.key (cleared_user now) c

  -- What a turn of the user loop does in each case.
  module _ (n : ℕ) (effected : Map (Unit {0})) (c : CombinedRoom) where
    abbrev loop : Outcome (Map (Unit {0}))
    loop = user_loop conv prefix now (suc n) effected c

    pub users-none : length c.mem_state.user_tracks.items ≡ 0 → loop ≡ finished effected c
    unfolding user_loop Zset.len
    users-none e = ground (arith, e)

    module _ (i : Item String) (some_left : 0 < length c.mem_state.user_tracks.items)
        (p : Zset.peek c.mem_state.user_tracks ≡ some i) where
      pub users-fresh : since_lt now i.ts user_status_timeout ≡ true → loop ≡ finished effected c
      unfolding user_loop Zset.len
      users-fresh e = ground (arith, p, e)

      pub users-failed :
          since_lt now i.ts user_status_timeout ≡ false
          → (act i c).1 ≡ err
          → loop ≡ failed (act i c).2
      unfolding user_loop Zset.len
      users-failed e f = ground (arith, p, e, f)

      pub users-next :
          since_lt now i.ts user_status_timeout ≡ false
          → (act i c).1 ≡ ok tt
          → loop ≡ user_loop conv prefix now n (insert i.payload tt effected) (pop_user (act i c).2)
      unfolding user_loop Zset.len
      users-next e f = ground (arith, p, e, f)

  pub user_loop-Ends :
      (n : ℕ) (effected : Map (Unit {0})) (c : CombinedRoom)
      → IsValid c.mem_state
      → length c.mem_state.user_tracks.items < n
      → Ends (UsersWithin now) (user_loop conv prefix now n effected c)
  user_loop-Ends zero effected c v h = absurd (omega arith)
  user_loop-Ends (suc n) effected c v h =
      elim (Heads_total c.mem_state.user_tracks v.users_ordered) [
        | empty e p q ↦
            rw (users-none n effected c e)
              (v, within-empty now user_status_timeout c.mem_state.user_tracks v.users_ordered e)
        | heads i w p q first valid size rest ↦
            elim (Bool-cases (since_lt now i.ts user_status_timeout)) [
              | inl fresh ↦
                  rw (users-fresh n effected c i (omega arith) q fresh)
                    (v, within-head now user_status_timeout c.mem_state.user_tracks i first fresh)
              | inr late ↦
                  let u = turn-IsValid conv prefix now i c v in
                  elim (Result-cases (act i c).1) [
                    | inl f ↦ rw (users-failed n effected c i (omega arith) q late f) u
                    | inr f ↦ rw (users-next n effected c i (omega arith) q late f) (
                        user_loop-Ends n (insert i.payload tt effected) (pop_user (act i c).2)
                          (pop_user-IsValid (act i c).2 u)
                          (omega (arith, turn-lt conv prefix now i c v first.stored)))
                  ]
            ]
      ]

  -- What a turn of the room loop does in each case.
  module _ (n : ℕ) (c : CombinedRoom) where
    rooms-none :
        length c.mem_state.room_tracks.items ≡ 0
        → room_loop conv prefix now (suc n) c ≡ finished tt c
    unfolding room_loop Zset.len
    rooms-none e = ground (arith, e)

    module _ (i : Item String) (some_left : 0 < length c.mem_state.room_tracks.items)
        (p : Zset.peek c.mem_state.room_tracks ≡ some i) where
      rooms-fresh :
          since_lt now i.ts room_max_ttl ≡ true
          → room_loop conv prefix now (suc n) c ≡ finished tt c
      unfolding room_loop Zset.len
      rooms-fresh e = ground (arith, p, e)

      abbrev redis_part : Result (Unit {0}) × Redis.Redis
      redis_part = drop_in_redis conv prefix now i.key c.redis_state

      abbrev dropped_room : CombinedRoom
      dropped_room = record { mem_state = drop_room i.key c.mem_state; redis_state = redis_part.1 }

      rooms-failed :
          since_lt now i.ts room_max_ttl ≡ false
          → redis_part.0 ≡ err
          → room_loop conv prefix now (suc n) c ≡ failed dropped_room
      unfolding room_loop Zset.len
      rooms-failed e f = ground (arith, p, e, f)

      rooms-next :
          since_lt now i.ts room_max_ttl ≡ false
          → redis_part.0 ≡ ok tt
          → room_loop conv prefix now (suc n) c
            ≡ room_loop conv prefix now n (pop_room dropped_room)
      unfolding room_loop Zset.len
      rooms-next e f = ground (arith, p, e, f)

  -- The room loop also keeps what the user loop achieved.
  abbrev pub BothWithin : CombinedRoom → Type 0
  BothWithin c = UsersWithin now c × RoomsWithin now c

  users-dropped :
      (k : String) (c : CombinedRoom) (w : Zset String)
      → UsersWithin now c
      → AllWithin now user_status_timeout (dropped k w c.mem_state).user_tracks
  users-dropped k c w u j x e = u j x (lookup-drop_room k j x c.mem_state e)

  room_loop-Ends :
      (n : ℕ) (c : CombinedRoom)
      → IsValid c.mem_state
      → UsersWithin now c
      → length c.mem_state.room_tracks.items < n
      → Ends BothWithin (room_loop conv prefix now n c)
  unfolding pop_room drop_room
  room_loop-Ends zero c v u h = absurd (omega arith)
  room_loop-Ends (suc n) c v u h = elim (Heads_total c.mem_state.room_tracks v.rooms_ordered) [
    | empty e p q ↦
        rw (rooms-none n c e)
          (v, (u, within-empty now room_max_ttl c.mem_state.room_tracks v.rooms_ordered e))
    | heads i w p q first valid size rest ↦ elim (Bool-cases (since_lt now i.ts room_max_ttl)) [
      | inl fresh ↦
          rw (rooms-fresh n c i (omega arith) q fresh)
            (v, (u, within-head now room_max_ttl c.mem_state.room_tracks i first fresh))
      | inr late ↦ elim (Result-cases (drop_in_redis conv prefix now i.key c.redis_state).0) [
        | inl f ↦ rw (rooms-failed n c i (omega arith) q late f) (
            dropped-IsValid i.key c.mem_state.room_tracks c.mem_state v v.rooms_ordered
              (λ j g. refl))
        | inr f ↦ rw (rooms-next n c i (omega arith) q late f) (
            room_loop-Ends n (pop_room (dropped_room n c i (omega arith) q))
              (rw p
                (dropped-IsValid i.key w c.mem_state v valid (λ j g. ground (arith, g, rest j))))
              (users-dropped i.key c w u) (rw p (omega arith)))
      ]
    ]
  ]

  report-Ends :
      (room_ids : List String) (o : Outcome (Unit {0}))
      → Ends BothWithin o
      → Ends BothWithin (report conv prefix now room_ids o)
  unfolding report
  report-Ends room_ids out_of_fuel h = h
  report-Ends room_ids (failed c) h = h
  report-Ends room_ids (finished t c) h = h

  then_rooms-Ends :
      (o : Outcome (Map (Unit {0})))
      → Ends (UsersWithin now) o
      → Ends BothWithin (then_rooms conv prefix now o)
  unfolding then_rooms
  then_rooms-Ends out_of_fuel h = h
  then_rooms-Ends (failed c) h = h
  then_rooms-Ends (finished effected c) h =
      report-Ends (map (λ e. e.0) effected) _
        (room_loop-Ends (suc (length c.mem_state.room_tracks.items)) c h.0 h.1 (omega arith))

  -- CheckTimeout returns on every well-formed state, whatever Redis does: the invariant holds again,
  -- and unless Redis failed no track of a user or a room is left that has run out.
  pub check_timeout-Ends :
      (c : CombinedRoom) → IsValid c.mem_state → Ends BothWithin (check_timeout conv prefix now c)
  unfolding check_timeout
  check_timeout-Ends c v =
      then_rooms-Ends (user_loop conv prefix now (suc (length c.mem_state.user_tracks.items)) [] c)
        (user_loop-Ends (suc (length c.mem_state.user_tracks.items)) [] c v (omega arith))
