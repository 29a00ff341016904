-- ===== src/Januses/Leaks.antt =====
-- What one failed write of a room's status leaves.
use audio_rtc_exp.Prelude.{
  ℕ, ◌+◌, ◌≡◌, ◌≢◌, refl, sym, ◌∙◌, inl, inr, All, Bool-cases, String, List, [], ◌∷◌, ◌++◌, Option,
  none, some, arith, eq_iff, Map, lookup, insert, lookup-insert, ◌==◌, string_eq, string_eq_refl,
  nat_eq, Bool, true, false, ◌&&◌,
}
use audio_rtc_exp.Etcdstate.Janus.{Janus}
use audio_rtc_exp.Etcdstate.Room.{RoomState}
use audio_rtc_exp.Januses.{
  ActiveRoom, AdminCall, creates, forwards, Answer, fine, RoomWatcher, admin, write,
  update_janus_status, created, create_room_attempts, create_rtp_forwarder, streamed,
  is_assigned_to_us, endpoint, pin_of, ensure_room, ensure_forwarder, forward_if, process_change,
}

abbrev pub watcher :
    Map ActiveRoom → Map Janus → List AdminCall → List Answer → List Bool → RoomWatcher
watcher active_rooms statuses calls answers faults = record {
  active_rooms = active_rooms;
  statuses = statuses;
  calls = calls;
  answers = answers;
  faults = faults;
}

-- A Janus room without a forwarder.
abbrev pub fresh : ℕ → ActiveRoom
fresh janus_room_id = record {
  janus_room_id = janus_room_id;
  stream_id = 0;
  fw_ip = "";
  fw_port = 0;
}

-- No active room has the Janus room.
abbrev pub Orphaned : ℕ → Map ActiveRoom → Type 0
Orphaned janus_room_id rooms =
    (j : String) (a : ActiveRoom) → lookup j rooms ≡ some a → a.janus_room_id ≢ janus_room_id

module _ (janus_id : String) where
  fails_to_store :
      (now k n : ℕ) (draw : ℕ → Option ℕ) (r : String) (st : Option RoomState)
      (rooms : Map ActiveRoom) (statuses : Map Janus) (calls : List AdminCall) (more : List Answer)
      (fs : List Bool)
      → is_assigned_to_us janus_id st ≡ true
      → lookup r rooms ≡ none
      → draw 4 ≡ some k
      → process_change janus_id now draw r st
          (watcher rooms statuses calls (fine n ∷ more) (true ∷ fs))
        ≡ (
          none,
          watcher rooms statuses
              (calls ++ (creates (100000 + k) r (pin_of janus_id st) ∷ []))
              more
              fs,
        )
  unfolding process_change ensure_room create_room_attempts created admin update_janus_status write
  fails_to_store now k n draw r st rooms statuses calls more fs y e d =
      rw (process_change, ensure_room, e, y) (rw (create_room_attempts, d) refl)

  creates_room :
      (now k n : ℕ) (draw : ℕ → Option ℕ) (r : String) (st : Option RoomState)
      (rooms : Map ActiveRoom) (statuses : Map Janus) (calls : List AdminCall) (more : List Answer)
      → is_assigned_to_us janus_id st ≡ true
      → endpoint janus_id st ≡ none
      → lookup r rooms ≡ none
      → draw 4 ≡ some k
      → process_change janus_id now draw r st (watcher rooms statuses calls (fine n ∷ more) []) ≡ (
        some tt,
        watcher
            (insert r (fresh (100000 + k)) rooms)
            (insert r
              (record {
                janus_id = janus_id;
                status = "room_created";
                timestamp = now;
                janus_room_id = 100000 + k;
              })
              statuses)
            (calls ++ (creates (100000 + k) r (pin_of janus_id st) ∷ []))
            more
            [],
      )
  unfolding process_change ensure_room create_room_attempts created admin update_janus_status write
      forward_if ensure_forwarder
  creates_room now k n draw r st rooms statuses calls more y o e d =
      rw (process_change, ensure_room, e, y)
        (rw (create_room_attempts, d) (rw (forward_if, o) refl))

  Orphaned-insert :
      (n k : ℕ) (r : String) (rooms : Map ActiveRoom)
      → n ≢ k
      → Orphaned k rooms
      → Orphaned k (insert r (fresh n) rooms)
  Orphaned-insert n k r rooms d o j a e = elim (Bool-cases (r == j)) [
    | inl t ↦
        let same : some (fresh n) ≡ some a =
          sym (lookup-insert r j (fresh n) rooms ∙ rw t refl) ∙ e in
        λ f. d (ground (arith, same, f))
    | inr t ↦ o j a (sym (lookup-insert r j (fresh n) rooms ∙ rw t refl) ∙ e)
  ]

  -- A room that is on air here, has no mixer port yet and is not active: if Janus creates its Janus
  -- room and the write of its status then fails, the retry with another draw creates a second Janus
  -- room, and the two creations are all that Janus was asked. The second is active; the first, if no
  -- room had its id before, belongs to no active room and so is left behind in Janus.
  pub process_change_leaks :
      (now k n at l m : ℕ) (draw redraw : ℕ → Option ℕ) (r : String) (st : Option RoomState)
      (rooms : Map ActiveRoom) (statuses : Map Janus) (calls : List AdminCall) (more : List Answer)
      → is_assigned_to_us janus_id st ≡ true
      → endpoint janus_id st ≡ none
      → lookup r rooms ≡ none
      → draw 4 ≡ some k
      → redraw 4 ≡ some l
      → l ≢ k
      → Orphaned (100000 + k) rooms
      → let v =
          (process_change janus_id at redraw r st
            (process_change janus_id now draw r st
              (watcher rooms statuses calls (fine n ∷ fine m ∷ more) (true ∷ []))).1).1 in
        (lookup r v.active_rooms ≡ some (fresh (100000 + l)))
        × (v.calls
            ≡ (calls ++ (creates (100000 + k) r (pin_of janus_id st) ∷ []))
              ++ (creates (100000 + l) r (pin_of janus_id st) ∷ []))
        × Orphaned (100000 + k) v.active_rooms
  process_change_leaks now k n at l m draw redraw r st rooms statuses calls more y o e d f q g =
      rw
        (
          fails_to_store now k n draw r st rooms statuses calls (fine m ∷ more) [] y e d,
          creates_room at l m redraw r st rooms statuses
              (calls ++ (creates (100000 + k) r (pin_of janus_id st) ∷ [])) more y o e f,
        )
        (
          lookup-insert r r (fresh (100000 + l)) rooms ∙ rw (string_eq_refl r) refl,
          refl,
          Orphaned-insert (100000 + l) (100000 + k) r rooms (λ s. q (omega (arith, s))) g,
        )

  -- A forwarder that was made and whose status was not written.
  forwards_unseen :
      (now n port : ℕ) (draw : ℕ → Option ℕ) (r ip : String) (st : Option RoomState)
      (a : ActiveRoom) (rooms : Map ActiveRoom) (statuses : Map Janus) (calls : List AdminCall)
      (more : List Answer) (fs : List Bool)
      → is_assigned_to_us janus_id st ≡ true
      → endpoint janus_id st ≡ some (ip, port)
      → lookup r rooms ≡ some a
      → (a.janus_room_id == 0) ≡ false
      → (a.stream_id == 0) ≡ true
      → (n == 0) ≡ false
      → process_change janus_id now draw r st
          (watcher rooms statuses calls (fine n ∷ more) (true ∷ fs))
        ≡ (
          none,
          watcher
              (insert r (record a { stream_id = n; fw_ip = ip; fw_port = port }) rooms)
              statuses
              (calls ++ (forwards a.janus_room_id ip port ∷ []))
              more
              fs,
        )
  unfolding process_change ensure_room admin update_janus_status write forward_if ensure_forwarder
      create_rtp_forwarder streamed
  forwards_unseen now n port draw r ip st a rooms statuses calls more fs y o e z s i =
      rw (process_change, ensure_room, e, y)
        (rw (forward_if, o) (rw (ensure_forwarder, s, create_rtp_forwarder, z) (rw i refl)))

  pub unchanged :
      (now port : ℕ) (draw : ℕ → Option ℕ) (r ip : String) (st : Option RoomState) (a : ActiveRoom)
      (w : RoomWatcher)
      → is_assigned_to_us janus_id st ≡ true
      → endpoint janus_id st ≡ some (ip, port)
      → lookup r w.active_rooms ≡ some a
      → (a.stream_id == 0) ≡ false
      → a.fw_ip ≡ ip
      → a.fw_port ≡ port
      → process_change janus_id now draw r st w ≡ (some tt, w)
  unfolding process_change ensure_room forward_if ensure_forwarder
  unchanged now port draw r ip st a w y o e s f g =
      let same : (a.fw_ip == ip && a.fw_port == port) ≡ true =
        ground (arith, (eq_iff a.fw_ip ip).1 f, g) in
      rw (process_change, ensure_room, e, y)
        (rw (forward_if, o) (rw (ensure_forwarder, s, same) refl))

  abbrev pub Change : Type 0
  Change = ℕ × (ℕ → Option ℕ) × Option RoomState

  -- Changes of one room in order, each with its time and its draws.
  unfoldable pub process_all :
      String → List Change → RoomWatcher → List (Option (Unit {0})) × RoomWatcher
  process_all r [] w = ([], w)
  process_all r ((now, draw, st) ∷ changes) w =
      let first = process_change janus_id now draw r st w in
      let rest = process_all r changes first.1 in (first.0 ∷ rest.0, rest.1)

  -- A room on air here that is to be forwarded to the end.
  abbrev pub LeadsTo : String → ℕ → Option RoomState → Type 0
  LeadsTo ip port st =
      (is_assigned_to_us janus_id st ≡ true) × (endpoint janus_id st ≡ some (ip, port))

  unfoldable pub successes : List Change → List (Option (Unit {0}))
  successes [] = []
  successes (c ∷ changes) = some tt ∷ successes changes

  process_all-successes :
      (port : ℕ) (r ip : String) (a : ActiveRoom) (changes : List Change) (w : RoomWatcher)
      → lookup r w.active_rooms ≡ some a
      → (a.stream_id == 0) ≡ false
      → a.fw_ip ≡ ip
      → a.fw_port ≡ port
      → All (λ c. LeadsTo ip port c.2) changes
      → process_all r changes w ≡ (successes changes, w)
  unfolding process_all successes
  process_all-successes port r ip a [] w e s f g h = refl
  process_all-successes port r ip a ((now, draw, st) ∷ changes) w e s f g h =
      rw
        (
          unchanged now port draw r ip st a w h.0.0 h.0.1 e s f g,
          process_all-successes port r ip a changes w e s f g h.1,
        )
        refl

  -- For an active room without a forwarder that is on air here with a mixer port: if Janus makes
  -- the forwarder and the write of its status then fails, however many changes of the room follow,
  -- whatever else they change, as long as the room stays on air here with the same end, all of them
  -- succeed and do nothing: the statuses stay as they were before the forwarder.
  pub process_change_unseen :
      (now n port : ℕ) (draw : ℕ → Option ℕ) (r ip : String) (st : Option RoomState)
      (a : ActiveRoom) (rooms : Map ActiveRoom) (statuses : Map Janus) (calls : List AdminCall)
      (more : List Answer) (fs : List Bool) (changes : List Change)
      → LeadsTo ip port st
      → lookup r rooms ≡ some a
      → (a.janus_room_id == 0) ≡ false
      → (a.stream_id == 0) ≡ true
      → (n == 0) ≡ false
      → All (λ c. LeadsTo ip port c.2) changes
      → let v =
          (process_change janus_id now draw r st
            (watcher rooms statuses calls (fine n ∷ more) (true ∷ fs))).1 in
        (process_all r changes v ≡ (successes changes, v)) × (v.statuses ≡ statuses)
  process_change_unseen now n port draw r ip st a rooms statuses calls more fs changes y e z s i h =
      let b : ActiveRoom = record a { stream_id = n; fw_ip = ip; fw_port = port } in
      rw (forwards_unseen now n port draw r ip st a rooms statuses calls more fs y.0 y.1 e z s i) (
        process_all-successes port r ip b changes
            (watcher (insert r b rooms) statuses (calls ++ (forwards a.janus_room_id ip port ∷ []))
              more fs)
            (lookup-insert r r b rooms ∙ rw (string_eq_refl r) refl) i refl refl h,
        refl,
      )
