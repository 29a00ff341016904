-- ===== src/Users/Control/Runs.antt =====
-- Every request is answered exactly once.
use audio_rtc_exp.Prelude.{
  ℕ, zero, suc, ◌+◌, ◌-◌, ◌≡◌, refl, ◌∙◌, inl, inr, String, List, [], ◌∷◌, arith, length,
  length-append, true, false, Bool, Bool-cases, leb, nat_eq, List-cases,
}
use audio_rtc_exp.Users.Redis.{Strconv, Result, ok, err}
use audio_rtc_exp.Users.Combine.{CombinedRoom, get_room_users, remove_user, update_user_status}
use audio_rtc_exp.Users.Timeout.{Outcome, finished, failed, out_of_fuel, check_timeout}
use audio_rtc_exp.Users.Control.{
  UserStatusControl, UserEvent, creates, deletes, sets, Reply, reply, admit, handle_create,
  handle_delete, handle_set_status, run_event, conclude, notify_user_status, process, notify_all,
  tick, max_anchors_reached,
}
use audio_rtc_exp.Users.Control.Replies.{
  Stimulus, create_request, delete_request, status_request, event, ticking, mark, replies_to,
  request_of, actions_for, answers, arrivals, owed, IsBounded, replies_to-append,
  actions_for-append, handle_create-Arrives, handle_delete-Arrives, handle_set_status-Arrives,
}

-- The action of a request was run: it is answered, and the queue is as before.
record Ran (i id : ℕ) (c d : UserStatusControl) : Type 0 where
  given : replies_to i d.replies ≡ mark i id + replies_to i c.replies
  queued : d.user_event_ch ≡ c.user_event_ch
  waiting : d.senders ≡ c.senders

-- Nothing of the requests has changed.
record Same (c d : UserStatusControl) : Type 0 where
  given : d.replies ≡ c.replies
  queued : d.user_event_ch ≡ c.user_event_ch
  waiting : d.senders ≡ c.senders

-- A turn of the loop: no answer is lost or made up.
record Turned (c d : UserStatusControl) : Type 0 where
  kept : (i : ℕ) → answers i d ≡ answers i c
  bounded : IsBounded c → IsBounded d

conclude-Ran :
    (i id now : ℕ) (room_id : String) (r : Bool × Result (Unit {0}) × CombinedRoom)
    (c : UserStatusControl)
    → Ran i id c (conclude id now room_id r c)
unfolding conclude notify_user_status
conclude-Ran i id now room_id (found, err, s) c = record {
  given = omega (arith, replies_to-append i id _ c.replies);
  queued = refl;
  waiting = refl;
}
conclude-Ran i id now room_id (true, ok x, s) c = record {
  given = omega (arith, replies_to-append i id _ c.replies);
  queued = refl;
  waiting = refl;
}
conclude-Ran i id now room_id (false, ok x, s) c = record {
  given = omega (arith, replies_to-append i id _ c.replies);
  queued = refl;
  waiting = refl;
}

reply-Ran :
    (i id : ℕ) (a : Reply) (s : CombinedRoom) (c : UserStatusControl)
    → Ran i id c (reply id a (record c { room_state = s }))
reply-Ran i id a s c = record {
  given = omega (arith, replies_to-append i id a c.replies);
  queued = refl;
  waiting = refl;
}

Same-Turned : (c d : UserStatusControl) → Same c d → Turned c d
unfolding answers
Same-Turned c d s = record {
  kept = λ i. ground (arith, s.given, s.queued, s.waiting);
  bounded = λ b. ground (arith, b.0, b.1, s.queued, s.waiting);
}

module _ (conv : Strconv) (prefix : String) where
  run_event-Ran :
      (i now : ℕ) (e : UserEvent) (c : UserStatusControl)
      → Ran i (request_of e) c (run_event conv prefix now e c)
  unfolding run_event
  run_event-Ran i now (creates id req l) c =
      elim (Bool-cases (leb l (length (get_room_users req.room_id c.room_state)))) [
        | inl t ↦ rw (run_event, t) (reply-Ran i id max_anchors_reached c.room_state c)
        | inr t ↦ rw (run_event, t) (reply-Ran i id _ _ c)
      ]
  run_event-Ran i now (deletes id req) c =
      conclude-Ran i id now req.room_id
        (remove_user conv prefix req.room_id req.user_id c.room_state) c
  run_event-Ran i now (sets id req) c =
      conclude-Ran i id now req.room_id
        (update_user_status conv prefix req.room_id req.user_id
          (record { role = ""; status = req.status; ts = req.ts; gen = req.gen }) c.room_state)
        c

  -- What the channel and the senders are once its first action has been received.
  admit-first :
      (i : ℕ) (c : UserStatusControl) (e : UserEvent) (es : List UserEvent)
      → c.user_event_ch ≡ e ∷ es
      → let d = admit (record c { user_event_ch = es }) in
        (d.replies ≡ c.replies)
        × (mark i (request_of e) + actions_for i d.user_event_ch + actions_for i d.senders
            ≡ actions_for i c.user_event_ch + actions_for i c.senders)
        × (suc (owed d) ≡ owed c)
        × (IsBounded c → IsBounded d)
  unfolding admit actions_for
  admit-first i c e es h = elim (List-cases c.senders) [
    | inl f ↦
        rw (admit, f, h)
          (refl, ground (arith, f), ground (arith, f), λ b. ground (arith, b.0, b.1, f))
    | inr (x, more, f) ↦
        rw (admit, f, h)
          (
            refl,
            omega (arith, actions_for-append i x es),
            omega (arith, length-append {0} es (x ∷ [])),
            λ b. ground (arith, b.0, b.1, f, length-append {0} es (x ∷ [])),
          )
  ]

  process-Turned : (now : ℕ) (c : UserStatusControl) → Turned c (process conv prefix now c)
  unfolding process answers
  process-Turned now c = elim (List-cases c.user_event_ch) [
    | inl h ↦ simp (h, process) (record { kept = λ i. refl; bounded = λ b. b })
    | inr (e, es, h) ↦
        let d = admit (record c { user_event_ch = es }) in
        simp (h, process)
          (record {
            kept = λ i.
                let a = admit-first i c e es h in
                let r = run_event-Ran i now e d in
                ground (arith, a.0, a.1, r.given, r.queued, r.waiting);
            bounded = λ b.
                let w = (admit-first 0 c e es h).3 b in
                let r = run_event-Ran 0 now e d in ground (arith, w.0, w.1, r.queued, r.waiting);
          })
  ]

  owed-process :
      (now : ℕ) (c : UserStatusControl)
      → IsBounded c
      → owed (process conv prefix now c) ≡ owed c - 1
  unfolding process
  owed-process now c b = elim (List-cases c.user_event_ch) [
    | inl h ↦ rw (process, h) (ground (arith, h, b.1))
    | inr (e, es, h) ↦
        let d = admit (record c { user_event_ch = es }) in
        let a = admit-first 0 c e es h in
        let r = run_event-Ran 0 now e d in
        rw (process, h) (ground (arith, a.2, r.queued, r.waiting, h))
  ]

  notify_all-Same :
      (now : ℕ) (room_ids : List String) (c d : UserStatusControl)
      → Same c d
      → Same c (notify_all conv prefix now room_ids d)
  unfolding notify_all notify_user_status
  notify_all-Same now [] c d s = s
  notify_all-Same now (r ∷ rs) c d s =
      notify_all-Same now rs c (notify_user_status now r d)
        (record { given = s.given; queued = s.queued; waiting = s.waiting })

  tick-Same : (now : ℕ) (c : UserStatusControl) → Same c (tick conv prefix now c)
  unfolding tick
  tick-Same now c = from (check_timeout conv prefix now c.room_state) refl
    where
      same : Same c c
      same = record { given = refl; queued = refl; waiting = refl }

      from :
          (o : Outcome (List String))
          → check_timeout conv prefix now c.room_state ≡ o
          → Same c (tick conv prefix now c)
      from out_of_fuel h = rw (h, tick) same
      from (failed s) h = rw (h, tick) (record { given = refl; queued = refl; waiting = refl })
      from (finished rs s) h =
          rw (h, tick)
            (notify_all-Same now rs c (record c { room_state = s })
              (record { given = refl; queued = refl; waiting = refl }))

  unfoldable pub step : Stimulus → UserStatusControl → UserStatusControl
  step (create_request id r) c = handle_create id r c
  step (delete_request id r) c = handle_delete id r c
  step (status_request id r) c = handle_set_status id r c
  step (event now) c = process conv prefix now c
  step (ticking now) c = tick conv prefix now c

  unfoldable pub run : List Stimulus → UserStatusControl → UserStatusControl
  unfolding step
  run [] c = c
  run (s ∷ ss) c = run ss (step s c)

  -- The loop takes so many actions.
  unfoldable pub process_all : ℕ → ℕ → UserStatusControl → UserStatusControl
  process_all zero now c = c
  process_all (suc n) now c = process_all n now (process conv prefix now c)

  run-answers :
      (i : ℕ) (ss : List Stimulus) (c : UserStatusControl)
      → IsBounded c
      → (answers i (run ss c) ≡ arrivals i ss + answers i c) × IsBounded (run ss c)
  unfolding run step arrivals
  run-answers i [] c b = (omega arith, b)
  run-answers i (create_request id r ∷ ss) c b =
      let a = handle_create-Arrives i id r c in
      let rest = run-answers i ss (handle_create id r c) (a.bounded b) in
      (omega (arith, rest.0, a.more), rest.1)
  run-answers i (delete_request id r ∷ ss) c b =
      let a = handle_delete-Arrives i id r c in
      let rest = run-answers i ss (handle_delete id r c) (a.bounded b) in
      (omega (arith, rest.0, a.more), rest.1)
  run-answers i (status_request id r ∷ ss) c b =
      let a = handle_set_status-Arrives i id r c in
      let rest = run-answers i ss (handle_set_status id r c) (a.bounded b) in
      (omega (arith, rest.0, a.more), rest.1)
  run-answers i (event now ∷ ss) c b =
      let t = process-Turned now c in
      let rest = run-answers i ss (process conv prefix now c) (t.bounded b) in
      (omega (arith, rest.0, t.kept i), rest.1)
  run-answers i (ticking now ∷ ss) c b =
      let t = Same-Turned c (tick conv prefix now c) (tick-Same now c) in
      let rest = run-answers i ss (tick conv prefix now c) (t.bounded b) in
      (omega (arith, rest.0, t.kept i), rest.1)

  process_all-answers :
      (i n now : ℕ) (c : UserStatusControl)
      → IsBounded c
      → n ≡ owed c
      → (answers i (process_all n now c) ≡ answers i c) × (owed (process_all n now c) ≡ 0)
  unfolding process_all
  process_all-answers i zero now c b e = (refl, omega (arith, e))
  process_all-answers i (suc n) now c b e =
      let t = process-Turned now c in
      let rest =
        process_all-answers i n now (process conv prefix now c) (t.bounded b)
          (omega (arith, e, owed-process now c b)) in
      (rest.0 ∙ t.kept i, rest.1)

  no_actions : (i : ℕ) (es : List UserEvent) → length es ≡ 0 → actions_for i es ≡ 0
  unfolding actions_for
  no_actions i [] e = refl
  no_actions i (x ∷ es) e = absurd (omega (arith, e))

  -- From a state in which handlers wait only while the channel is full, however requests, actions
  -- and ticks are interleaved, and whichever of the requests have to wait for room in the channel:
  -- once the loop has taken as many further actions as are outstanding, none is left and the
  -- replies to each request are as many as its arrivals, with what was given and owed to it before.
  -- So each request that arrives once is answered exactly once.
  pub run-replies_to :
      (now : ℕ) (ss : List Stimulus) (c : UserStatusControl)
      → IsBounded c
      → let d = process_all (owed (run ss c)) now (run ss c) in
        (owed d ≡ 0) × ((i : ℕ) → replies_to i d.replies ≡ arrivals i ss + answers i c)
  unfolding answers
  run-replies_to now ss c b = (
    (process_all-answers 0 (owed (run ss c)) now (run ss c) (run-answers 0 ss c b).1 refl).1,
    λ i.
        let r = run-answers i ss c b in
        let d = process_all (owed (run ss c)) now (run ss c) in
        let p = process_all-answers i (owed (run ss c)) now (run ss c) r.1 refl in
        omega (
          arith,
          p.0,
          r.0,
          no_actions i d.user_event_ch (omega (arith, p.1)),
          no_actions i d.senders (omega (arith, p.1)),
        ),
  )
