-- ===== src/Users/Timeout/Loses.antt =====
-- The user loop pops once too often: UpdateUserStatus has removed the track of the user whose time
-- ran out, so the Pop that follows takes the track of the next user.
use audio_rtc_exp.Prelude.{
  ℕ, zero, suc, ◌<◌, ◌≡◌, ◌∙◌, ◌⊎◌, inl, inr, String, List, [], ◌∷◌, none, some, arith, Map, lookup,
  insert, length, true, false, Bool, ◌==◌, string_eq, nat_eq, Option-cases, Bool-cases, eq_iff,
  string_eq_refl, lookup-insert, lookup-delete, delete, ap,
}
use audio_rtc_exp.Zset
use audio_rtc_exp.Zset.{Zset, Item, remove, heap_remove, pop}
use audio_rtc_exp.Zset.Laws as Z
use audio_rtc_exp.Zset.Laws.{lookup-remove, remove-IsValid}
use audio_rtc_exp.Zset.Order.{find, IsQueue}
use audio_rtc_exp.Zset.Sizes.{empty, heads, Heads_total, lookup-pop}
use audio_rtc_exp.Users.{User, since_lt, user_status_timeout}
use audio_rtc_exp.Users.Mem.{RoomsStateMem, set_user_status, write_status}
use audio_rtc_exp.Users.Mem.Laws.{IsValid, member, member-insert}
use audio_rtc_exp.Users.Mem.Outcomes.{skips, writes, set_user_status-Sets}
use audio_rtc_exp.Users.Redis.{Strconv, Result, ok}
use audio_rtc_exp.Users.Redis.Calls.{set_alive}
use audio_rtc_exp.Users.Combine.{CombinedRoom, update_user_status}
use audio_rtc_exp.Users.Timeout.{cleared_user, pop_user, user_loop}
use audio_rtc_exp.Users.Timeout.Turn.{
  update-mem_state, tracks-cleared, turn-lt, turn-IsValid, pop_user-IsValid,
}
use audio_rtc_exp.Users.Timeout.Ends.{
  Ends, users-none, users-fresh, users-failed, users-next, Result-cases,
}

-- setUserStatus leaves other users alone.
set_user_status-member :
    (r k room_id user_id : String) (u : User) (m : RoomsStateMem)
    → (user_id == k) ≡ false
    → member r k (set_user_status room_id user_id u m).1.rooms ≡ member r k m.rooms
unfolding write_status
set_user_status-member r k room_id user_id u m h = elim (set_user_status-Sets room_id user_id m u) [
  | skips e ↦ simp e
  | writes room ou e f w ↦
      let v : User = record ou { status = u.status; gen = u.gen; ts = u.ts } in
      simp w (
        ground (
          arith,
          h,
          e,
          eq_iff room_id r,
          member-insert room_id r k (insert user_id v room) m.rooms,
          lookup-insert user_id k v room,
        ))
]

none-pop :
    (k : String) (t : Zset String)
    → Z.IsValid t
    → lookup k t.items ≡ none
    → lookup k (pop t).1.items ≡ none
none-pop k t v e = elim (Option-cases (lookup k (pop t).1.items)) [
  | inl f ↦ f
  | inr (x, f) ↦ ground (arith, lookup-pop t v k x f)
]

none-turn :
    (k j : String) (z t : Zset String)
    → Z.IsValid z
    → lookup k z.items ≡ none
    → (t ≡ z) ⊎ (t ≡ remove j z)
    → lookup k (pop t).1.items ≡ none
none-turn k j z t v e (inl same) = rw same (none-pop k z v e)
none-turn k j z t v e (inr removed) =
    rw removed
      (none-pop k (remove j z) (remove-IsValid j z v) (ground (arith, lookup-remove j k z)))

-- A user that has no track gets none and is left alone by a turn.
module _ (conv : Strconv) (prefix : String) (now : ℕ) (k : String) (i : Item String)
    (c : CombinedRoom) (v : IsValid c.mem_state)
    (gone : lookup k c.mem_state.user_tracks.items ≡ none)
    (tracked : lookup i.key c.mem_state.user_tracks.items ≡ some i) where
  abbrev after : CombinedRoom
  after = pop_user (update_user_status conv prefix i.payload i.key (cleared_user now) c).2

  other : (i.key == k) ≡ false
  other = ground (arith, eq_iff i.key k)

  turn-member : (r : String) → member r k after.mem_state.rooms ≡ member r k c.mem_state.rooms
  unfolding pop_user lookup
  turn-member r =
      rw (update-mem_state conv prefix i.payload i.key (cleared_user now) c, member)
        (set_user_status-member r k i.payload i.key (cleared_user now) c.mem_state other)

  turn-gone : lookup k after.mem_state.user_tracks.items ≡ none
  unfolding pop_user
  turn-gone = none-turn k i.key c.mem_state.user_tracks _ v.users_ordered gone (
      rw (update-mem_state conv prefix i.payload i.key (cleared_user now) c)
        (tracks-cleared now i.payload i.key c.mem_state))

-- `k` has no track, and its records are those of `m`.
abbrev pub Forgotten : String → RoomsStateMem → CombinedRoom → Type 0
Forgotten k m c =
    (lookup k c.mem_state.user_tracks.items ≡ none)
    × ((r : String) → member r k c.mem_state.rooms ≡ member r k m.rooms)

module _ (conv : Strconv) (prefix : String) (now : ℕ) (k : String) (m : RoomsStateMem) where
  user_loop-Forgotten :
      (n : ℕ) (effected : Map (Unit {0})) (c : CombinedRoom)
      → IsValid c.mem_state
      → length c.mem_state.user_tracks.items < n
      → Forgotten k m c
      → Ends (Forgotten k m) (user_loop conv prefix now n effected c)
  user_loop-Forgotten zero effected c v h f = absurd (omega arith)
  user_loop-Forgotten (suc n) effected c v h f =
      elim (Heads_total c.mem_state.user_tracks v.users_ordered) [
        | empty e p q ↦ rw (users-none conv prefix now n effected c e) (v, f)
        | heads i w p q first valid size rest ↦
            elim (Bool-cases (since_lt now i.ts user_status_timeout)) [
              | inl fresh ↦
                  rw (users-fresh conv prefix now n effected c i (omega arith) q fresh) (v, f)
              | inr late ↦
                  let u = turn-IsValid conv prefix now i c v in
                  let d = update_user_status conv prefix i.payload i.key (cleared_user now) c in
                  elim (Result-cases d.1) [
                    | inl x ↦
                        rw (users-failed conv prefix now n effected c i (omega arith) q late x) u
                    | inr x ↦
                        rw (users-next conv prefix now n effected c i (omega arith) q late x) (
                          user_loop-Forgotten n (insert i.payload tt effected) (pop_user d.2)
                            (pop_user-IsValid d.2 u)
                            (omega (arith, turn-lt conv prefix now i c v first.stored))
                            (
                              turn-gone conv prefix now k i c v f.0 first.stored,
                              λ r. turn-member conv prefix now k i c v f.0 first.stored r ∙ f.1 r,
                            ))
                  ]
            ]
      ]

-- The second track of a queue is gone when its first is removed and the head is popped.
second-gone :
    (i j : Item String) (q : List (Item String)) (z : Zset String)
    → z.pq ≡ i ∷ j ∷ q
    → lookup i.key z.items ≡ some i
    → lookup j.key (pop (remove i.key z)).1.items ≡ none
unfolding remove pop heap_remove
second-gone i j q z e l = ground (
  arith,
  e,
  l,
  string_eq_refl i.key,
  string_eq_refl j.key,
  lookup-delete j.key j.key (delete i.key z.items),
)

module _ (conv : Strconv) (prefix : String) (now : ℕ) (i j : Item String) (q : List (Item String))
    (c : CombinedRoom) (room : Map User) (ou : User) (v : IsValid c.mem_state)
    (first : c.mem_state.user_tracks.pq ≡ i ∷ j ∷ q)
    (late : since_lt now i.ts user_status_timeout ≡ false)
    (here : lookup i.payload c.mem_state.rooms ≡ some room) (found : lookup i.key room ≡ some ou)
    (known : (ou.role == "") ≡ false) (alive : c.redis_state.faults ≡ []) where
  abbrev turn : Bool × Result (Unit {0}) × CombinedRoom
  turn = update_user_status conv prefix i.payload i.key (cleared_user now) c

  written : set_user_status i.payload i.key (cleared_user now) c.mem_state ≡ (
    true,
    write_status i.payload i.key (cleared_user now) room ou c.mem_state,
    record (cleared_user now) { ts = 0 },
  )
  unfolding set_user_status
  written = rw (here, set_user_status, found, known)

  answered : turn.1 ≡ ok tt
  unfolding update_user_status
  answered = simp (written, set_alive conv prefix i.payload i.key c.redis_state alive)

  head-tracked : lookup i.key c.mem_state.user_tracks.items ≡ some i
  unfolding find
  head-tracked = ground (arith, rw first at (v.users_ordered.same i.key), string_eq_refl i.key)

  queue : IsQueue (i ∷ j ∷ q)
  queue = rw first at v.users_ordered.ordered

  distinct : (i.key == j.key) ≡ false
  unfolding find
  distinct = ground (arith, queue, eq_iff i.key j.key, eq_iff j.key i.key)

  next-Forgotten : Forgotten j.key c.mem_state (pop_user turn.2)
  unfolding pop_user lookup
  next-Forgotten = (
    rw (update-mem_state conv prefix i.payload i.key (cleared_user now) c) (
        simp written
          (unfold write_status in second-gone i j q c.mem_state.user_tracks first head-tracked)),
    λ r.
        rw (update-mem_state conv prefix i.payload i.key (cleared_user now) c, member)
          (set_user_status-member r j.key i.payload i.key (cleared_user now) c.mem_state distinct),
  )

  some_left : 0 < length c.mem_state.user_tracks.items
  some_left = omega (arith, v.users_ordered.sized, ap length first)

  shown : Zset.peek c.mem_state.user_tracks ≡ some i
  unfolding Zset.peek
  shown = ground (arith, first)

  -- When the state is valid, Redis does not fail, two users are tracked, and the first of them is in
  -- its room with a role and its time has run out, the
  -- user loop forgets the next user as well: that user's track is gone when the loop ends, and
  -- nothing has been changed in that user's records, whether or not the time has run out.
  pub user_loop_loses_next :
      (effected : Map (Unit {0}))
      → Ends
          (Forgotten j.key c.mem_state)
          (user_loop conv prefix now (suc (length c.mem_state.user_tracks.items)) effected c)
  user_loop_loses_next effected =
      let n = length c.mem_state.user_tracks.items in
      let u = turn-IsValid conv prefix now i c v in
      rw (users-next conv prefix now n effected c i some_left shown late answered) (
        user_loop-Forgotten conv prefix now j.key c.mem_state n (insert i.payload tt effected)
          (pop_user turn.2) (pop_user-IsValid turn.2 u)
          (omega (arith, turn-lt conv prefix now i c v head-tracked)) next-Forgotten)
