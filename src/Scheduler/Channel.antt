-- ===== src/Scheduler/Channel.antt =====
-- The scheduler and the watcher that uses it, as two goroutines: the watcher enqueues into a channel
-- of 100 actions and receives keys, the scheduler runs the actions and sends keys that are due.
use mathlib.Core.Path.{subst}
use audio_rtc_exp.Zset.{heap_push}
use audio_rtc_exp.Prelude.{
  ℕ, zero, suc, ◌+◌, ◌-◌, lookup, insert, ◌≤◌, ◌<◌, ◌≡◌, ◌≢◌, refl, String, List, [], ◌∷◌, ◌++◌,
  none, some, arith, length, length-append, ltb, ◌==◌, nat_eq, false, ℤ,
}
use audio_rtc_exp.Scheduler.{
  entry, KeyedScheduler, new_keyed_scheduler, clear_timer, schedule_next_timer, Action, enqueue,
  enqueues, run_action, next_due, arm, do_enqueue, reset_at, pop_top, due_at,
}

-- The loop of the scheduler: at its select, or in fireDue at the send of a key.
pub data Phase : Type 0 where
  selecting : KeyedScheduler → Phase
  sending : ℕ → String → KeyedScheduler → Phase

-- The loop of the watcher: in calls of Enqueue, or at its select.
pub data Client : Type 0 where
  enqueueing : List (String × ℤ) → Client
  receiving : Client

pub record System : Type 0 where
  pub phase : Phase
  pub chan_enqueue : List Action
  pub client : Client

abbrev pub channel_size : ℕ
channel_size = 100

-- A turn of fireDue.
unfoldable pub fire : ℕ → KeyedScheduler → Phase
unfolding next_due schedule_next_timer
fire now s = elim (next_due now s) [
  | none ↦ selecting (schedule_next_timer now s)
  | some r ↦ sending now r.0 r.1
]

abbrev sys : Phase → List Action → Client → System
sys p b c = record { phase = p; chan_enqueue = b; client = c }

-- One step of either goroutine, at any time `now`.
pub data Step : System → System → Type 0 where
  puts :
      (p : Phase) (b : List Action) (now : ℕ) (key : String) (delay : ℤ) (more : List (String × ℤ))
      → length b < channel_size
      → Step
          (sys p b (enqueueing ((key, delay) ∷ more)))
          (sys p (b ++ (enqueue now key delay ∷ [])) (enqueueing more))
  returns : (p : Phase) (b : List Action) → Step (sys p b (enqueueing [])) (sys p b receiving)
  watches :
      (p : Phase) (b : List Action) (changed : List (String × ℤ))
      → Step (sys p b receiving) (sys p b (enqueueing changed))
  acts :
      (s : KeyedScheduler) (a : Action) (b : List Action) (c : Client) (now : ℕ)
      → Step (sys (selecting s) (a ∷ b) c) (sys (selecting (run_action now a s)) b c)
  fires :
      (s : KeyedScheduler) (b : List Action) (c : Client) (now t : ℕ)
      → s.timer ≡ some t
      → t ≤ now
      → Step (sys (selecting s) b c) (sys (fire now (clear_timer s)) b c)
  sends :
      (now : ℕ) (key : String) (s : KeyedScheduler) (b : List Action) (retries : List (String × ℤ))
      → Step (sys (sending now key s) b receiving) (sys (fire now s) b (enqueueing retries))

pub data Steps : System → System → Type 0 where
  stays : (x : System) → Steps x x
  goes : (x y z : System) → Step x y → Steps y z → Steps x z

-- Neither goroutine can go on.
abbrev pub IsStuck : System → Type 0
IsStuck x = (y : System) → Step x y → ⊥

full-IsStuck :
    (now : ℕ) (key : String) (s : KeyedScheduler) (b : List Action) (e : String × ℤ)
    (more : List (String × ℤ))
    → length b ≡ channel_size
    → IsStuck (sys (sending now key s) b (enqueueing (e ∷ more)))
full-IsStuck now key s b e more h y (puts p b' n k d m l) = omega (arith, h, l)

-- A channel that fills up while the scheduler waits to send.
record Fills (now : ℕ) (key : String) (s : KeyedScheduler) (b : List Action)
    (ids : List (String × ℤ)) : Type 0 where
  full : List Action
  first : String × ℤ
  rest : List (String × ℤ)
  filled : length full ≡ channel_size
  reached :
      Steps
        (sys (sending now key s) b (enqueueing ids))
        (sys (sending now key s) full (enqueueing (first ∷ rest)))

fill :
    (n now : ℕ) (key : String) (s : KeyedScheduler) (b : List Action) (ids : List (String × ℤ))
    → n + length b ≡ channel_size
    → n < length ids
    → Fills now key s b ids
fill zero now key s b [] e l = absurd (omega arith)
fill zero now key s b (x ∷ ids) e l = record {
  full = b;
  first = x;
  rest = ids;
  filled = omega (arith, e);
  reached = stays _;
}
fill (suc n) now key s b [] e l = absurd (omega arith)
fill (suc n) now key s b ((k, d) ∷ ids) e l =
    let a = enqueue now k d in
    let f =
      fill n now key s (b ++ (a ∷ [])) ids (omega (arith, e, length-append b (a ∷ [])))
        (omega (arith, l)) in
    record {
      full = f.full;
      first = f.first;
      rest = f.rest;
      filled = f.filled;
      reached = goes _ _ _ (puts (sending now key s) b now k d ids (omega (arith, e))) f.reached;
    }

-- The scheduler after the first key was enqueued.
abbrev one_item : ℕ → ℕ → String → KeyedScheduler
one_item now ts key = record {
  items = (key, entry key ts) ∷ [];
  heap = entry key ts ∷ [];
  timer_ts = ts;
  timer = some (now + (ts - now));
}

enqueued_first :
    (now ts : ℕ) (key : String)
    → ts ≢ 0
    → run_action now (enqueues key ts) (new_keyed_scheduler now) ≡ one_item now ts key
unfolding new_keyed_scheduler run_action do_enqueue schedule_next_timer arm reset_at lookup insert
    heap_push
enqueued_first now ts key n =
    let other : (0 == ts) ≡ false = ground arith in
    rw (run_action, do_enqueue, schedule_next_timer, arm, other) refl

fired_first :
    (now ts at : ℕ) (key : String)
    → ts ≤ at
    → fire at (clear_timer (one_item now ts key))
      ≡ sending at key (pop_top (entry key ts) [] (clear_timer (one_item now ts key)))
unfolding fire next_due clear_timer
fired_first now ts at key l =
    let due : ltb at ts ≡ false = ground arith in rw (fire, next_due, clear_timer, due) refl

started :
    (now : ℕ) (key : String) (ids : List (String × ℤ))
    → now ≢ 0
    → Steps (sys (selecting (new_keyed_scheduler now)) [] (enqueueing ((key, ℤ.pos 0) ∷ ids))) (
        sys
          (sending now key
            (pop_top (entry key (now + 0)) [] (clear_timer (one_item now (now + 0) key))))
          []
          (enqueueing ids))
unfolding enqueue due_at
started now key ids n =
    let new = new_keyed_scheduler now in
    let c = enqueueing ids in
    let one = one_item now (now + 0) key in
    let e : run_action now (enqueues key (now + 0)) new ≡ one =
      enqueued_first now (now + 0) key (λ z. absurd (n (omega (arith, z)))) in
    goes _ _ _ (puts (selecting new) [] now key (ℤ.pos 0) ids (omega arith)) (
      goes _ (sys (selecting one) [] c) _
        (subst
          (λ x. Step (sys (selecting new) (enqueues key (now + 0) ∷ []) c) (sys (selecting x) [] c))
          e (acts new (enqueues key (now + 0)) [] c now))
        (goes _ _ _
          (subst (λ p. Step (sys (selecting one) [] c) (sys p [] c))
            (fired_first now (now + 0) now key (omega arith))
            (fires one [] c now (now + (now + 0 - now)) refl (omega arith)))
          (stays _)))

Steps_trans : (x y z : System) → Steps x y → Steps y z → Steps x z
Steps_trans x y z (stays w) q = q
Steps_trans x y z (goes a b c s p) q = goes x b z s (Steps_trans b y z p q)

-- A watcher that enqueues more than 101 ids at its start can reach a state in which neither goroutine
-- can go on: the scheduler waits to send the first id, and the watcher to enqueue into a full channel.
pub start_deadlocks :
    (now : ℕ) (key : String) (ids : List (String × ℤ))
    → now ≢ 0
    → channel_size < length ids
    → (y : System) × Steps
        (record {
          phase = selecting (new_keyed_scheduler now);
          chan_enqueue = [];
          client = enqueueing ((key, ℤ.pos 0) ∷ ids);
        })
        y
      × IsStuck y
start_deadlocks now key ids n l =
    let s = pop_top (entry key (now + 0)) [] (clear_timer (one_item now (now + 0) key)) in
    let f = fill 100 now key s [] ids (omega arith) (omega (arith, l)) in
    (
      sys (sending now key s) f.full (enqueueing (f.first ∷ f.rest)),
      Steps_trans _ _ _ (started now key ids n) f.reached,
      full-IsStuck now key s f.full f.first f.rest f.filled,
    )
