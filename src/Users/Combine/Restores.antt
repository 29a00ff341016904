-- ===== src/Users/Combine/Restores.antt =====
-- The rooms that Rebuild reads from Redis are those that the calls before a restart have written.
use audio_rtc_exp.Prelude.{
  ℕ, true, String, [], ◌∷◌, Option, none, some, ℤ, Map, lookup, length, ◌==◌, nat_eq, string_eq,
  if◌then◌else◌, ◌≡◌, refl, arith, eq_iff, Option-cases, inl, inr, ◌∙◌, ap, Without, ◌*◌, ◌/◌, ◌⊎◌,
  is_some,
}
use audio_rtc_exp.Users.{User, second}
use audio_rtc_exp.Users.Combine.Rebuild.{
  dated, kept_users, parse_tracks, parse_room_tracks, with_role, with_status, parse_users_data,
  restore_room, rebuild_rooms, rebuild,
}
use audio_rtc_exp.Users.Mem.{RoomsStateMem, add_room_track}
use audio_rtc_exp.Users.Mem.Laws.{IsValid, member, member-insert}
use audio_rtc_exp.Users.Combine.{CombinedRoom}
use audio_rtc_exp.Users.Redis.{Strconv, ok, hash, call, hget_all, user_status_key, rooms_key, unix}
use audio_rtc_exp.Users.Redis.Pack.{comma, InRange, IsDecimal, unpack_status-pack_status}
use audio_rtc_exp.Users.Combine.Agree.{role_text, status_text, track_text, Agrees}
use audio_rtc_exp.Zset
use audio_rtc_exp.Users.Combine.Fields.{
  keeps, reading, lookup-kept_users, lookup-parse_tracks, lookup-parse_users_data,
}

abbrev pub combined : RoomsStateMem → Map (Map String) → CombinedRoom
combined m h = record { mem_state = m; redis_state = record { hashes = h; faults = [] } }

abbrev pub no_rooms : RoomsStateMem
no_rooms = record { rooms = []; user_tracks = Zset.new; room_tracks = Zset.new }

-- What a restart leaves of a user in memory: the time of a status up to the second, no time and
-- generation without a status.
unfoldable pub back : ℕ → Option User → Option User
back now none = none
back now (some u) =
    let ts = u.ts / second * second in
    if u.role == ""
    then none
    else if u.status == ""
    then some (record { role = u.role; status = ""; ts = 0; gen = ℤ.pos 0 })
    else some (record u { ts = if ts == 0 then now else ts })

-- A user whose status can be read back from its text.
pub record Fits (u : User) : Type 0 where
  pub plain : Without comma u.status
  pub seconds : InRange 64 (unix u.ts)
  pub generation : InRange 32 u.gen

module _ (conv : Strconv) (prefix : String) where
  -- A user of a room as the hash of the room tells it.
  told : ℕ → Map (Map String) → String → String → Option User
  told now h k j =
      keeps now (lookup j (parse_users_data conv prefix (hash (user_status_key prefix k) h)))

  member-restore_room :
      (now : ℕ) (i k j : String) (data_ : Map String) (m : RoomsStateMem)
      → member k j (restore_room conv prefix now i data_ m).rooms ≡ (
          if i == k
          then (if length data_ == 0
              then member k j m.rooms
              else keeps now (lookup j (parse_users_data conv prefix data_)))
          else member k j m.rooms)
  unfolding restore_room
  member-restore_room now i k j data_ m = ground (
    arith,
    member-insert i k j (kept_users now (parse_users_data conv prefix data_)) m.rooms,
    lookup-kept_users now j (parse_users_data conv prefix data_),
  )

  -- One turn of the loop.
  turned : ℕ → String → ℕ → RoomsStateMem → Map (Map String) → RoomsStateMem
  turned now i ts m h =
      restore_room conv prefix now i (hash (user_status_key prefix i) h) (add_room_track i ts m)

  rebuild_rooms-turned :
      (now : ℕ) (i : String) (ts : ℕ) (tracking : Map ℕ) (m : RoomsStateMem) (h : Map (Map String))
      → rebuild_rooms conv prefix now ((i, ts) ∷ tracking) (combined m h)
        ≡ rebuild_rooms conv prefix now tracking (combined (turned now i ts m h) h)
  unfolding rebuild_rooms turned hget_all call
  rebuild_rooms-turned now i ts tracking m h = refl

  told_of_empty :
      (now : ℕ) (j : String) (data_ : Map String)
      → length data_ ≡ 0
      → keeps now (lookup j (parse_users_data conv prefix data_)) ≡ none
  unfolding keeps parse_users_data lookup
  told_of_empty now j [] e = refl
  told_of_empty now j (x ∷ data_) e = absurd (omega (arith, e))

  member-turned :
      (now : ℕ) (i k j : String) (ts : ℕ) (m : RoomsStateMem) (h : Map (Map String))
      → (member k j m.rooms ≡ none) ⊎ (member k j m.rooms ≡ told now h k j)
      → member k j (turned now i ts m h).rooms
        ≡ (if i == k then told now h k j else member k j m.rooms)
  unfolding turned told add_room_track
  member-turned now i k j ts m h a = ground (
    arith,
    eq_iff i k,
    told_of_empty now j (hash (user_status_key prefix i) h),
    member-restore_room now i k j (hash (user_status_key prefix i) h) (add_room_track i ts m),
  )

  -- The loop: what is told stays, what is not visited stays, and what is visited is told.
  rebuild_rooms-ok :
      (now : ℕ) (tracking : Map ℕ) (m : RoomsStateMem) (h : Map (Map String))
      → (rebuild_rooms conv prefix now tracking (combined m h)).0 ≡ ok tt
  unfolding rebuild_rooms
  rebuild_rooms-ok now [] m h = refl
  rebuild_rooms-ok now ((i, ts) ∷ tracking) m h =
      rw (rebuild_rooms-turned now i ts tracking m h)
        (rebuild_rooms-ok now tracking (turned now i ts m h) h)

  member-told :
      (now : ℕ) (k j : String) (tracking : Map ℕ) (m : RoomsStateMem) (h : Map (Map String))
      → (member k j m.rooms ≡ none) ⊎ (member k j m.rooms ≡ told now h k j)
      → member k j (rebuild_rooms conv prefix now tracking (combined m h)).1.mem_state.rooms
        ≡ (if is_some (lookup k tracking) then told now h k j else member k j m.rooms)
  unfolding rebuild_rooms lookup
  member-told now k j [] m h a = refl
  member-told now k j ((i, ts) ∷ tracking) m h a =
      let turn = member-turned now i k j ts m h a in
      rw (rebuild_rooms-turned now i ts tracking m h)
        (ground (arith, a, turn, eq_iff i k, member-told now k j tracking (turned now i ts m h) h))

  reading-back :
      (now : ℕ) (o : Option User)
      → IsDecimal conv
      → ((u : User) → o ≡ some u → Fits u)
      → keeps now (reading conv prefix (role_text conv prefix o) (status_text conv prefix o))
        ≡ back now o
  unfolding keeps reading back dated with_role with_status
  reading-back now none d f = refl
  reading-back now (some u) d f =
      let fits = f u refl in
      ground (
        arith,
        eq_iff u.status "",
        unpack_status-pack_status conv u d fits.plain fits.seconds fits.generation,
      )

  told-back :
      (now : ℕ) (m : RoomsStateMem) (h : Map (Map String)) (k j : String)
      → IsDecimal conv
      → Agrees conv prefix m h
      → ((u : User) → member k j m.rooms ≡ some u → Fits u)
      → told now h k j ≡ back now (member k j m.rooms)
  unfolding told
  told-back now m h k j d a f =
      ap (keeps now) (lookup-parse_users_data conv prefix j (hash (user_status_key prefix k) h))
      ∙ (rw (a.roles k j, a.statuses k j) (reading-back now (member k j m.rooms) d f))

  -- The rooms that Redis tracks are those with a track in memory.
  tracked :
      (now : ℕ) (k : String) (m : RoomsStateMem) (h : Map (Map String))
      → Agrees conv prefix m h
      → is_some (lookup k m.room_tracks.items) ≡ true
      → is_some (lookup k (parse_tracks conv prefix now (hash (rooms_key prefix) h))) ≡ true
  tracked now k m h a t = elim (Option-cases (lookup k m.room_tracks.items)) [
    | inl e ↦ ground (arith, e, t)
    | inr (i, e) ↦ ground (
      arith,
      lookup-parse_tracks conv prefix now k (conv.format_int (unix i.ts))
          (hash (rooms_key prefix) h) (a.tracks k ∙ ap (track_text conv prefix) e),
    )
  ]

  rebuild-rooms :
      (now : ℕ) (m : RoomsStateMem) (h : Map (Map String))
      → rebuild conv prefix now (combined m h)
        ≡ rebuild_rooms conv prefix now
            (parse_tracks conv prefix now (hash (rooms_key prefix) h))
            (combined m h)
  unfolding rebuild parse_room_tracks hget_all call
  rebuild-rooms now m h = refl

  member-no_rooms : (k j : String) → member k j no_rooms.rooms ≡ none
  unfolding lookup
  member-no_rooms k j = refl

  module _ (now : ℕ) (m : RoomsStateMem) (h : Map (Map String)) (k j : String)
      (a : Agrees conv prefix m h) (v : IsValid m)
      (t : told now h k j ≡ back now (member k j m.rooms)) where
    member-back :
        member k j
          (rebuild_rooms conv prefix now
            (parse_tracks conv prefix now (hash (rooms_key prefix) h))
            (combined no_rooms h)).1.mem_state.rooms
        ≡ back now (member k j m.rooms)
    unfolding back
    member-back =
        let e =
          member-told now k j (parse_tracks conv prefix now (hash (rooms_key prefix) h)) no_rooms h
            (inl (member-no_rooms k j)) in
        elim (Option-cases (lookup k m.rooms)) [
          | inl g ↦ ground (arith, e, g, t, member-no_rooms k j)
          | inr (room, g) ↦ ground (arith, e, t, tracked now k m h a (v.expiring k room g))
        ]

  -- If Redis agrees with rooms in memory that are well formed and whose statuses can be read back, and
  -- no call of Redis fails, then Rebuild of an empty memory succeeds and brings back exactly the users
  -- of every room that have a role, each with its role and, if it has a status, with the status,
  -- the generation and the time up to the second.
  pub rebuild-Restores :
      (now : ℕ) (m : RoomsStateMem) (h : Map (Map String))
      → IsDecimal conv
      → Agrees conv prefix m h
      → IsValid m
      → ((k j : String) (u : User) → member k j m.rooms ≡ some u → Fits u)
      → ((rebuild conv prefix now (combined no_rooms h)).0 ≡ ok tt)
        × ((k j : String)
            → member k j (rebuild conv prefix now (combined no_rooms h)).1.mem_state.rooms
              ≡ back now (member k j m.rooms))
  unfolding back
  rebuild-Restores now m h d a v f =
      let tracking = parse_tracks conv prefix now (hash (rooms_key prefix) h) in
      rw (rebuild-rooms now no_rooms h) (
        rebuild_rooms-ok now tracking no_rooms h,
        λ k j. member-back now m h k j a v (told-back now m h k j d a (f k j)),
      )
