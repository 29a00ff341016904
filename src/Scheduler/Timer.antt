-- ===== src/Scheduler/Timer.antt =====
-- The timer of the scheduler is armed for the earliest item, whatever is enqueued, cancelled or
-- cleared.
use audio_rtc_exp.Prelude.{
  ℕ, ◌+◌, ◌-◌, ◌≤◌, ◌≡◌, ◌≢◌, refl, ◌⊎◌, inl, inr, List-cases, List, [], ◌∷◌, Option, none, some,
  arith, All, length, ◌==◌, nat_eq, string_eq, true, false, Bool-cases,
}
use audio_rtc_exp.Zset.{Zset}
use audio_rtc_exp.Zset.Laws as Zset_laws
use audio_rtc_exp.Scheduler.{Entry, KeyedScheduler, clear_timer, reset_at, arm, schedule_next_timer}

abbrev pub view : KeyedScheduler → Zset (Unit {0})
view s = record { pq = s.heap; items = s.items }

-- A timer that is set fires neither before its time nor later than now or that time.
abbrev pub Fires : ℕ → ℕ → Option ℕ → Type 0
Fires now ts none = ts ≡ 0
Fires now ts (some t) = (ts ≡ 0) ⊎ ((ts ≤ t) × (t ≤ now + (ts - now)))

-- The timer aims at the head of the heap.
abbrev pub Aims : List Entry → ℕ → Type 0
Aims [] ts = Unit {0}
Aims (top ∷ rest) ts = ts ≡ top.ts

-- The invariant: the queue and the index hold the same items, and the timer is set for the head.
pub record IsValid (now : ℕ) (s : KeyedScheduler) : Type 0 where
  pub queue : Zset_laws.IsValid (view s)
  pub dated : All (λ i. i.ts ≢ 0) s.heap
  pub fires : Fires now s.timer_ts s.timer
  pub aims : Aims s.heap s.timer_ts

-- What scheduleNextTimer needs.
pub record IsQueued (now : ℕ) (s : KeyedScheduler) : Type 0 where
  pub queue : Zset_laws.IsValid (view s)
  pub dated : All (λ i. i.ts ≢ 0) s.heap
  pub fires : Fires now s.timer_ts s.timer

pub IsValid-IsQueued : (now : ℕ) (s : KeyedScheduler) → IsValid now s → IsQueued now s
IsValid-IsQueued now s v = record { queue = v.queue; dated = v.dated; fires = v.fires }

arm-Fires :
    (now ts : ℕ) (s : KeyedScheduler)
    → Fires now s.timer_ts s.timer
    → Fires now (arm now ts s).timer_ts (arm now ts s).timer × ((arm now ts s).timer_ts ≡ ts)
unfolding arm reset_at
arm-Fires now ts s h = elim (Bool-cases (s.timer_ts == ts)) [
  | inl t ↦ rw (arm, t) (h, ground arith)
  | inr t ↦ rw (arm, t) (inr (omega arith, omega arith), refl)
]

clear_timer-IsValid :
    (now : ℕ) (s : KeyedScheduler) → IsQueued now s → s.heap ≡ [] → IsValid now (clear_timer s)
unfolding clear_timer
clear_timer-IsValid now s v e = record {
  queue = v.queue;
  dated = v.dated;
  fires = refl;
  aims = rw e tt;
}

arm-IsValid :
    (now : ℕ) (top : Entry) (rest : List Entry) (s : KeyedScheduler)
    → IsQueued now s
    → s.heap ≡ top ∷ rest
    → IsValid now (arm now top.ts s)
unfolding arm
arm-IsValid now top rest s v e =
    let armed = arm-Fires now top.ts s v.fires in
    elim (Bool-cases (s.timer_ts == top.ts)) [
      | inl t ↦
          rw (arm, t)
            (record {
              queue = v.queue;
              dated = v.dated;
              fires = v.fires;
              aims = rw e (ground arith);
            })
      | inr t ↦
          rw (arm, t)
            (record {
              queue = v.queue;
              dated = v.dated;
              fires = rw (arm, t) at armed.0;
              aims = rw e refl;
            })
    ]

pub schedule_next_timer-IsValid :
    (now : ℕ) (s : KeyedScheduler) → IsQueued now s → IsValid now (schedule_next_timer now s)
unfolding schedule_next_timer
schedule_next_timer-IsValid now s v = elim (List-cases s.heap) [
  | inl e ↦
      let empty : (length s.items == 0) ≡ true = ground (arith, v.queue.sized, e) in
      rw (schedule_next_timer, empty) (clear_timer-IsValid now s v e)
  | inr (top, rest, e) ↦
      let filled : (length s.items == 0) ≡ false = ground (arith, v.queue.sized, e) in
      rw (schedule_next_timer, filled, e) (arm-IsValid now top rest s v e)
]
