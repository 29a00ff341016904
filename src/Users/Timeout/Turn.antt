-- ===== src/Users/Timeout/Turn.antt =====
-- One turn of the user loop of CheckTimeout, and one of the room loop.
use audio_rtc_exp.Prelude.{
  ℕ, suc, ◌≤◌, ◌≡◌, refl, ◌⊎◌, inl, inr, String, [], ◌∷◌, none, some, arith, eq_iff, Map, lookup,
  delete, length, is_some, false, lookup-delete, delete-IsMap, lookup-nil, ◌==◌, string_eq, nat_eq,
  if◌then◌else◌, Option-cases,
}
use audio_rtc_exp.Zset
use audio_rtc_exp.Zset.{Zset, Item}
use audio_rtc_exp.Zset.Laws.{lookup-remove, remove-IsValid}
use audio_rtc_exp.Zset.Laws as Z
use audio_rtc_exp.Zset.Sizes.{length-remove, length-pop, pop-IsValid, lookup-pop}
use audio_rtc_exp.Users.{User}
use audio_rtc_exp.Users.Mem.{RoomsStateMem, set_user_status, write_status}
use audio_rtc_exp.Users.Mem.Laws.{member, IsValid, member-delete}
use audio_rtc_exp.Users.Mem.Preserve.{set_user_status-IsValid}
use audio_rtc_exp.Users.Mem.Outcomes.{skips, writes, set_user_status-Sets}
use audio_rtc_exp.Users.Redis.{Strconv}
use audio_rtc_exp.Users.Combine.{CombinedRoom, update_user_status}
use audio_rtc_exp.Users.Timeout.{cleared_user, pop_user, untrack_all, drop_room}

-- The memory after UpdateUserStatus is the memory after setUserStatus.
pub update-mem_state :
    (conv : Strconv) (prefix room_id user_id : String) (u : User) (c : CombinedRoom)
    → (update_user_status conv prefix room_id user_id u c).2.mem_state
      ≡ (set_user_status room_id user_id u c.mem_state).1
unfolding update_user_status
update-mem_state conv prefix room_id user_id u c =
    elim (set_user_status-Sets room_id user_id c.mem_state u) [
      | skips e ↦ simp e
      | writes room ou e f w ↦ simp w
    ]

-- setUserStatus with an empty status leaves the tracks alone or removes the user's.
pub tracks-cleared :
    (now : ℕ) (room_id user_id : String) (m : RoomsStateMem)
    → let t = (set_user_status room_id user_id (cleared_user now) m).1.user_tracks in
      (t ≡ m.user_tracks) ⊎ (t ≡ Zset.remove user_id m.user_tracks)
unfolding write_status
tracks-cleared now room_id user_id m =
    elim (set_user_status-Sets room_id user_id m (cleared_user now)) [
      | skips e ↦ inl (simp e)
      | writes room ou e f w ↦ inr (simp w)
    ]

-- Either way a pop that follows leaves fewer tracks.
fewer :
    (k : String) (i : Item String) (z t : Zset String)
    → Z.IsValid z
    → lookup k z.items ≡ some i
    → (t ≡ z) ⊎ (t ≡ Zset.remove k z)
    → suc (length (Zset.pop t).1.items) ≤ length z.items
fewer k i z t v e (inl same) = rw same (omega (arith, length-pop z v, length-remove z v k i e))
fewer k i z t v e (inr removed) =
    rw removed
      (omega (arith, length-pop (Zset.remove k z) (remove-IsValid k z v), length-remove z v k i e))

-- Clearing the status of the tracked user and popping the head leaves fewer tracks.
pub turn-lt :
    (conv : Strconv) (prefix : String) (now : ℕ) (i : Item String) (c : CombinedRoom)
    → IsValid c.mem_state
    → lookup i.key c.mem_state.user_tracks.items ≡ some i
    → let d = (update_user_status conv prefix i.payload i.key (cleared_user now) c).2 in
      suc (length (pop_user d).mem_state.user_tracks.items) ≤ length c.mem_state.user_tracks.items
unfolding pop_user
turn-lt conv prefix now i c v e = fewer i.key i c.mem_state.user_tracks _ v.users_ordered e (
    rw (update-mem_state conv prefix i.payload i.key (cleared_user now) c)
      (tracks-cleared now i.payload i.key c.mem_state))

-- And the invariant holds again.
pub turn-IsValid :
    (conv : Strconv) (prefix : String) (now : ℕ) (i : Item String) (c : CombinedRoom)
    → IsValid c.mem_state
    → IsValid (update_user_status conv prefix i.payload i.key (cleared_user now) c).2.mem_state
turn-IsValid conv prefix now i c v =
    rw (update-mem_state conv prefix i.payload i.key (cleared_user now) c)
      (set_user_status-IsValid i.payload i.key (cleared_user now) c.mem_state v)

-- Popping a user keeps the invariant.
pub pop_user-IsValid : (c : CombinedRoom) → IsValid c.mem_state → IsValid (pop_user c).mem_state
unfolding pop_user
pop_user-IsValid c v =
    let z = c.mem_state.user_tracks in
    record {
      users_ordered = pop-IsValid z v.users_ordered;
      rooms_ordered = v.rooms_ordered;
      rooms_once = v.rooms_once;
      users_once = v.users_once;
      occupied = v.occupied;
      expiring = v.expiring;
      placed = λ j x e. v.placed j x (lookup-pop z v.users_ordered j x e);
    }

-- The tracks after all users of a room are removed.
pub lookup-untrack_all :
    (j : String) (room : Map User) (z : Zset String)
    → lookup j (untrack_all room z).items
      ≡ (if is_some (lookup j room) then none else lookup j z.items)
unfolding untrack_all lookup
lookup-untrack_all j [] z = refl
lookup-untrack_all j ((k, u) ∷ room) z =
    ground (arith, eq_iff k j, lookup-untrack_all j room (Zset.remove k z), lookup-remove k j z)

pub untrack_all-IsValid :
    (room : Map User) (z : Zset String) → Z.IsValid z → Z.IsValid (untrack_all room z)
unfolding untrack_all
untrack_all-IsValid [] z v = v
untrack_all-IsValid ((k, u) ∷ room) z v =
    untrack_all-IsValid room (Zset.remove k z) (remove-IsValid k z v)

-- What a user loop turn and a room loop turn leave of the tracks was there before.
pub lookup-drop_room :
    (k j : String) (x : Item String) (m : RoomsStateMem)
    → lookup j (drop_room k m).user_tracks.items ≡ some x
    → lookup j m.user_tracks.items ≡ some x
unfolding drop_room
lookup-drop_room k j x m e = elim (Option-cases (lookup k m.rooms)) [
  | inl f ↦ ground (arith, f, lookup-untrack_all j [] m.user_tracks, lookup-nil {V = User} j)
  | inr (room, f) ↦ ground (arith, f, lookup-untrack_all j room m.user_tracks)
]

-- The state after the room at the head of the room tracks is dropped and its track popped.
abbrev pub dropped : String → Zset String → RoomsStateMem → RoomsStateMem
dropped k w m = let d = drop_room k m in record d { room_tracks = w }

module _ (k : String) (room : Map User) (w : Zset String) (m : RoomsStateMem) (v : IsValid m)
    (ordered : Z.IsValid w)
    (rest : (j : String) → (k == j) ≡ false → lookup j w.items ≡ lookup j m.room_tracks.items)
    (users : (j : String) → is_some (member k j m.rooms) ≡ is_some (lookup j room)) where
  untracked-IsValid : IsValid (record {
    rooms = delete k m.rooms;
    user_tracks = untrack_all room m.user_tracks;
    room_tracks = w;
  })
  untracked-IsValid = record {
    users_ordered = untrack_all-IsValid room m.user_tracks v.users_ordered;
    rooms_ordered = ordered;
    rooms_once = delete-IsMap k m.rooms v.rooms_once;
    users_once = λ j n e. ground (arith, lookup-delete k j m.rooms, v.users_once j n);
    occupied = λ j n e. ground (arith, lookup-delete k j m.rooms, v.occupied j n);
    expiring = λ j n e. ground (arith, lookup-delete k j m.rooms, rest j, v.expiring j n);
    placed = λ j x e. ground (
      arith,
      eq_iff k x.payload,
      lookup-untrack_all j room m.user_tracks,
      member-delete k x.payload j m.rooms,
      users j,
      v.placed j x,
    );
  }

pub dropped-IsValid :
    (k : String) (w : Zset String) (m : RoomsStateMem)
    → IsValid m
    → Z.IsValid w
    → ((j : String) → (k == j) ≡ false → lookup j w.items ≡ lookup j m.room_tracks.items)
    → IsValid (dropped k w m)
unfolding drop_room
dropped-IsValid k w m v o rest = elim (Option-cases (lookup k m.rooms)) [
  | inl f ↦
      simp f (untracked-IsValid k [] w m v o rest (λ j. rw (f, member, lookup-nil {V = User} j)))
  | inr (room, f) ↦ simp f (untracked-IsValid k room w m v o rest (λ j. rw (f, member)))
]
