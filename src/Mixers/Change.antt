-- ===== src/Mixers/Change.antt =====
-- processChange: what a change of a room leaves, with and without faults.
use mathlib.Core.Path.{subst}
use audio_rtc_exp.Prelude.{
  ℕ, ◌≡◌, refl, ap, ◌∙◌, sym, inl, inr, String, List, [], ◌∷◌, Option, none, some, arith, eq_iff,
  lookup, insert, delete, lookup-insert, lookup-delete, string_eq, if◌then◌else◌, Bool, true, false,
  Bool-cases, Option-cases, is_some, string_eq_refl, not,
}
use audio_rtc_exp.Etcdstate.Room.{RoomState}
use audio_rtc_exp.Mixers.{
  ProcessInfo, RoomWatcher, call, update_mixer, start_ffmpeg, stop_ffmpeg, start_room_ffmpeg,
  stop_room_ffmpeg, should_be_running, is_state_runner, given, process_change,
}
use audio_rtc_exp.Mixers.Laws.{
  IsValid, starts, syncs, stops, stays, started, refused_start, Changes-total, StartsProcess_total,
  update_mixer-IsValid, call-keeps,
}

module _ (id mixer_ip : String) where
  -- The rest of startRoomFFmpeg after updateMixer.
  abbrev activated : String → ℕ → Bool × RoomWatcher → Bool × RoomWatcher
  activated r p (ok, v) =
      if ok
      then (
        true,
        record v {
          active_rooms = insert r (record { port = p; status = "running" }) v.active_rooms;
        },
      )
      else (false, v)

  activated-IsValid :
      (r : String) (p : ℕ) (ok : Bool) (v : RoomWatcher)
      → IsValid v
      → lookup r v.processes ≡ some (record { rtp_port = p; stopped = false })
      → IsValid (activated r p (ok, v)).1
  activated-IsValid r p false v h e k a f = h k a f
  activated-IsValid r p true v h e k a f = ground (
    arith,
    h k a,
    e,
    eq_iff r k,
    lookup-insert r k (record { port = p; status = "running" }) v.active_rooms,
  )

  update_mixer-processes :
      (r : String) (o : Option ℕ) (w : RoomWatcher)
      → ((update_mixer id mixer_ip r o w).1.processes ≡ w.processes)
        × ((update_mixer id mixer_ip r o w).1.active_rooms ≡ w.active_rooms)
  unfolding update_mixer
  update_mixer-processes r none w =
      call-keeps (λ u. (u.processes ≡ w.processes) × (u.active_rooms ≡ w.active_rooms))
        (λ u. record u { mixer_data = delete r u.mixer_data }) w (λ fs. (refl, refl)) (λ u h. h)
  update_mixer-processes r (some p) w =
      call-keeps (λ u. (u.processes ≡ w.processes) × (u.active_rooms ≡ w.active_rooms))
        (λ u. record u {
          mixer_data = insert r (record { id = id; ip = mixer_ip; port = p }) u.mixer_data;
        })
        w (λ fs. (refl, refl)) (λ u h. h)

  start_room_ffmpeg-IsValid :
      (o : Option ℕ) (r : String) (w : RoomWatcher)
      → IsValid w
      → lookup r w.active_rooms ≡ none
      → IsValid (start_room_ffmpeg id mixer_ip o r w).1
  unfolding start_room_ffmpeg
  start_room_ffmpeg-IsValid none r w h n = h
  start_room_ffmpeg-IsValid (some p) r w h n = elim (StartsProcess_total id mixer_ip r p w) [
    | refused_start v e a q ↦ rw (start_room_ffmpeg, e) (λ k b f. rw q (h k b (rw (sym a) f)))
    | started v e o a q ↦
        let valid : IsValid v = λ k b f. ground (
          arith,
          q,
          rw a at f,
          n,
          h k b,
          eq_iff r k,
          lookup-insert r k (record { rtp_port = p; stopped = false }) w.processes,
        ) in
        rw (start_room_ffmpeg, e)
          (activated-IsValid r p (update_mixer id mixer_ip r (some p) v).0
            (update_mixer id mixer_ip r (some p) v).1
            (update_mixer-IsValid id mixer_ip r (some p) v valid)
            (ap (lookup r) ((update_mixer-processes r (some p) v).0 ∙ q)
              ∙ (lookup-insert r r (record { rtp_port = p; stopped = false }) w.processes
                  ∙ rw (string_eq_refl r) refl)))
  ]

  stop_room_ffmpeg-IsValid :
      (r : String) (runner : Bool) (w : RoomWatcher)
      → IsValid w
      → IsValid (stop_room_ffmpeg id mixer_ip r runner w).1
  unfolding stop_room_ffmpeg stop_ffmpeg
  stop_room_ffmpeg-IsValid r runner w h = elim (Option-cases (lookup r w.processes)) [
    | inl e ↦ rw (stop_room_ffmpeg, stop_ffmpeg, e) h
    | inr (q, e) ↦
        let v : RoomWatcher = record w {
          active_rooms = delete r w.active_rooms;
          processes = insert r (record q { stopped = true }) w.processes;
        } in
        let valid : IsValid v = λ k b f. ground (
          arith,
          lookup-delete r k w.active_rooms,
          h k b,
          lookup-insert r k (record q { stopped = true }) w.processes,
          f,
        ) in
        rw (stop_room_ffmpeg, stop_ffmpeg, e) (last v valid runner)
  ]
    where
      last :
          (v : RoomWatcher)
          → IsValid v
          → (b : Bool) → IsValid (if b then update_mixer id mixer_ip r none v else (true, v)).1
      last v valid true = update_mixer-IsValid id mixer_ip r none v valid
      last v valid false = valid

  -- Whatever fails, a change of a room leaves every active room with a running process at its port.
  pub process_change-IsValid :
      (p : Option ℕ) (r : String) (s : Option RoomState) (w : RoomWatcher)
      → IsValid w
      → IsValid (process_change id mixer_ip p r s w).1
  process_change-IsValid p r s w h = elim (Changes-total id mixer_ip p r s w) [
    | starts y n e ↦ rw e (start_room_ffmpeg-IsValid p r w h n)
    | syncs a y n e ↦ rw e (update_mixer-IsValid id mixer_ip r (some a.port) w h)
    | stops y n e ↦ rw e (stop_room_ffmpeg-IsValid r (is_state_runner id (given s)) w h)
    | stays y e ↦ rw e h
  ]

  -- The change is done without error, and the room is active exactly if it should be.
  record Settled (p : ℕ) (r : String) (s : Option RoomState) (w : RoomWatcher) : Type 0 where
    pub succeeds : (process_change id mixer_ip (some p) r s w).0 ≡ true
    pub right :
        is_some (lookup r (process_change id mixer_ip (some p) r s w).1.active_rooms)
        ≡ should_be_running id (given s)

  Settled-stop :
      (p : ℕ) (r : String) (s : Option RoomState) (w : RoomWatcher) (m : ProcessInfo)
      → lookup r w.processes ≡ some m
      → should_be_running id (given s) ≡ false
      → process_change id mixer_ip (some p) r s (record w { faults = [] })
        ≡ stop_room_ffmpeg id mixer_ip r (is_state_runner id (given s)) (record w { faults = [] })
      → Settled p r s (record w { faults = [] })
  unfolding stop_room_ffmpeg stop_ffmpeg update_mixer call
  Settled-stop p r s w m f y e = elim (Bool-cases (is_state_runner id (given s))) [
    | inl t ↦ record {
      succeeds = rw (e, stop_room_ffmpeg, stop_ffmpeg, f, t) refl;
      right =
          rw (e, stop_room_ffmpeg, stop_ffmpeg, f, t)
            (ground (arith, y, string_eq_refl r, lookup-delete r r w.active_rooms));
    }
    | inr t ↦ record {
      succeeds = rw (e, stop_room_ffmpeg, stop_ffmpeg, f, t) refl;
      right =
          rw (e, stop_room_ffmpeg, stop_ffmpeg, f, t)
            (ground (arith, y, string_eq_refl r, lookup-delete r r w.active_rooms));
    }
  ]

  Settled-faultless :
      (p : ℕ) (r : String) (s : Option RoomState) (w : RoomWatcher)
      → IsValid w
      → w.faults ≡ []
      → (is_some (lookup r w.active_rooms) ≡ false → lookup r w.processes ≡ none)
      → Settled p r s (record w { faults = [] })
  unfolding start_room_ffmpeg stop_room_ffmpeg start_ffmpeg stop_ffmpeg update_mixer call
  Settled-faultless p r s w h f q =
      elim (Changes-total id mixer_ip (some p) r s (record w { faults = [] })) [
        | starts y n e ↦
            let o : lookup r w.processes ≡ none = q (rw n refl) in
            record {
              succeeds = rw (e, start_room_ffmpeg, start_ffmpeg, o) refl;
              right =
                  rw (e, start_room_ffmpeg, start_ffmpeg, o)
                    (ground (
                      arith,
                      y,
                      string_eq_refl r,
                      lookup-insert r r (record { port = p; status = "running" }) w.active_rooms,
                    ));
            }
        | syncs a y n e ↦ record { succeeds = rw e refl; right = rw (e, n, y) refl }
        | stops y n e ↦ elim (Option-cases (lookup r w.active_rooms)) [
          | inl g ↦ absurd (ground (arith, n, g))
          | inr (a, g) ↦ Settled-stop p r s w _ (h r a g) y e
        ]
        | stays y e ↦ record { succeeds = rw e refl; right = rw e y }
      ]

  -- With no faults and a free port, a change of a room succeeds, and afterwards the room is active
  -- exactly if it is on air here; the room must have no process left over when it is not active.
  pub process_change_settles :
      (p : ℕ) (r : String) (s : Option RoomState) (w : RoomWatcher)
      → IsValid w
      → w.faults ≡ []
      → (is_some (lookup r w.active_rooms) ≡ false → lookup r w.processes ≡ none)
      → ((process_change id mixer_ip (some p) r s w).0 ≡ true)
        × (is_some (lookup r (process_change id mixer_ip (some p) r s w).1.active_rooms)
            ≡ should_be_running id (given s))
  process_change_settles p r s w h f q =
      let t = Settled-faultless p r s w h f q in
      subst
        (λ fs.
          ((process_change id mixer_ip (some p) r s (record w { faults = fs })).0 ≡ true)
          × (is_some (
                lookup r
                  (process_change id mixer_ip (some p) r s
                    (record w { faults = fs })).1.active_rooms)
              ≡ should_be_running id (given s)))
        (sym f) (t.succeeds, t.right)

  fails_started :
      (later : Option ℕ) (r : String) (s : Option RoomState) (v : RoomWatcher)
      → should_be_running id (given s) ≡ true
      → lookup r v.active_rooms ≡ none
      → is_some (lookup r v.processes) ≡ true
      → process_change id mixer_ip later r s v ≡ (false, v)
  unfolding process_change start_room_ffmpeg start_ffmpeg
  fails_started none r s v y n o = rw (process_change, y, n) refl
  fails_started (some p) r s v y n o =
      rw (process_change, y, n, start_room_ffmpeg, start_ffmpeg, o) refl

  -- A room's process without the room being active.
  left_over : ℕ → String → RoomWatcher → List Bool → RoomWatcher
  left_over p r w fs = record w {
    processes = insert r (record { rtp_port = p; stopped = false }) w.processes;
    faults = fs;
  }

  fails_to_write :
      (p : ℕ) (r : String) (s : Option RoomState) (w : RoomWatcher) (fs : List Bool)
      → should_be_running id (given s) ≡ true
      → lookup r w.active_rooms ≡ none
      → lookup r w.processes ≡ none
      → process_change id mixer_ip
          (some p)
          r
          s
          (record w { faults = false ∷ false ∷ false ∷ true ∷ fs })
        ≡ (false, left_over p r w fs)
  unfolding process_change start_room_ffmpeg start_ffmpeg update_mixer call left_over
  fails_to_write p r s w fs y n o =
      rw (process_change, y, n, start_room_ffmpeg, start_ffmpeg, o) refl

  -- Changes of one room in order, each with the free port that it would find.
  unfoldable pub process_all :
      String → List (Option ℕ × Option RoomState) → RoomWatcher → List Bool × RoomWatcher
  process_all r [] w = ([], w)
  process_all r ((port, s) ∷ changes) w =
      let first = process_change id mixer_ip port r s w in
      let rest = process_all r changes first.1 in (first.0 ∷ rest.0, rest.1)

  -- Which of the changes do not ask for a running room.
  unfoldable pub unwanted : List (Option ℕ × Option RoomState) → List Bool
  unwanted [] = []
  unwanted ((port, s) ∷ changes) = not (should_be_running id (given s)) ∷ unwanted changes

  stays_inactive :
      (later : Option ℕ) (r : String) (s : Option RoomState) (v : RoomWatcher)
      → should_be_running id (given s) ≡ false
      → lookup r v.active_rooms ≡ none
      → process_change id mixer_ip later r s v ≡ (true, v)
  unfolding process_change
  stays_inactive later r s v y n = rw (process_change, y, n) refl

  process_all_stuck :
      (r : String) (changes : List (Option ℕ × Option RoomState)) (v : RoomWatcher)
      → lookup r v.active_rooms ≡ none
      → is_some (lookup r v.processes) ≡ true
      → process_all r changes v ≡ (unwanted changes, v)
  unfolding process_all unwanted
  process_all_stuck r [] v n o = refl
  process_all_stuck r ((port, s) ∷ changes) v n o =
      elim (Bool-cases (should_be_running id (given s))) [
        | inl y ↦ rw (fails_started port r s v y n o, process_all_stuck r changes v n o, y) refl
        | inr y ↦ rw (stays_inactive port r s v y n, process_all_stuck r changes v n o, y) refl
      ]

  -- If a room's stream starts and the write of its mixer data then fails, the room is stuck for as long
  -- as the process runs: whatever changes of the room follow, each that asks for a running room fails,
  -- each other succeeds, and none changes anything, so the room is not started and the process is
  -- not stopped.
  pub process_change_sticks :
      (p : ℕ) (r : String) (s : Option RoomState) (w : RoomWatcher) (fs : List Bool)
      → should_be_running id (given s) ≡ true
      → lookup r w.active_rooms ≡ none
      → lookup r w.processes ≡ none
      → w.faults ≡ false ∷ false ∷ false ∷ true ∷ fs
      → (changes : List (Option ℕ × Option RoomState))
      → process_all r changes (process_change id mixer_ip (some p) r s w).1
        ≡ (unwanted changes, (process_change id mixer_ip (some p) r s w).1)
  unfolding left_over
  process_change_sticks p r s w fs y n o f changes =
      let e : process_change id mixer_ip (some p) r s w ≡ (false, left_over p r w fs) =
        subst
          (λ gs.
            process_change id mixer_ip (some p) r s (record w { faults = gs })
            ≡ (false, left_over p r w fs))
          (sym f) (fails_to_write p r s w fs y n o) in
      rw e (
        process_all_stuck r changes (left_over p r w fs) n (
          ground (
            arith,
            string_eq_refl r,
            lookup-insert r r (record { rtp_port = p; stopped = false }) w.processes,
          )))
