-- ===== src/Scheduler.antt =====
-- backend/internal/scheduler/scheduler.go with queue.go: keys that are due at a time. The heap is
-- listed in the order of Less, which is that of the sorted set; times are nanoseconds, 0 for the zero
-- time, and the clock is an argument.
pub mod Timer
pub mod Actions
pub mod Due
pub mod Channel
mod Tests
use audio_rtc_exp.Prelude.{
  ℕ, suc, ◌+◌, ◌-◌, String, List, [], ◌∷◌, Option, none, some, Map, lookup, insert, delete, length,
  leb, ltb, ◌==◌, nat_eq, if◌then◌else◌, Bool, true, false, ℤ,
}
use audio_rtc_exp.Zset.{Item, heap_push, heap_remove}
use audio_rtc_exp.Users.{second}

-- An item of the queue; it has no payload.
abbrev pub Entry : Type 0
Entry = Item (Unit {0})

abbrev pub entry : String → ℕ → Entry
entry key ts = record { key = key; ts = ts; payload = tt }

-- `timer` is the time at which the timer fires, none if it is stopped.
pub record KeyedScheduler : Type 0 where
  pub items : Map Entry
  pub heap : List Entry
  pub timer_ts : ℕ
  pub timer : Option ℕ

unfoldable pub new_keyed_scheduler : ℕ → KeyedScheduler
new_keyed_scheduler now = record {
  items = [];
  heap = [];
  timer_ts = 0;
  timer = some (now + second);
}

unfoldable pub clear_timer : KeyedScheduler → KeyedScheduler
clear_timer s = record s { timer_ts = 0; timer = none }

-- timer.Reset(delay) for the delay to `ts`, or 0 if that has passed
unfoldable pub reset_at : ℕ → ℕ → ℕ
reset_at now ts = now + (ts - now)

unfoldable pub arm : ℕ → ℕ → KeyedScheduler → KeyedScheduler
unfolding reset_at
arm now ts s =
    if s.timer_ts == ts then s else record s { timer_ts = ts; timer = some (reset_at now ts) }

-- heap[0] of an empty heap does not arise while there are items.
unfoldable pub schedule_next_timer : ℕ → KeyedScheduler → KeyedScheduler
unfolding clear_timer arm
schedule_next_timer now s =
    if length s.items == 0
    then clear_timer s
    else elim s.heap [ [] ↦ s | top ∷ rest ↦ arm now top.ts s ]

abbrev pub with_item : Entry → KeyedScheduler → KeyedScheduler
with_item i s = record s { items = insert i.key i s.items; heap = heap_push i s.heap }

-- An item that is later than the one of its key, or at the same time, is dropped.
unfoldable pub do_enqueue : ℕ → Entry → KeyedScheduler → KeyedScheduler
unfolding heap_push heap_remove schedule_next_timer
do_enqueue now i s = elim (lookup i.key s.items) [
  | none ↦ schedule_next_timer now (with_item i s)
  | some cur ↦
      if leb cur.ts i.ts
      then s
      else schedule_next_timer now (with_item i (record s { heap = heap_remove cur.key s.heap }))
]

unfoldable pub do_cancel : ℕ → String → KeyedScheduler → KeyedScheduler
unfolding heap_remove schedule_next_timer
do_cancel now key s = elim (lookup key s.items) [
  | none ↦ s
  | some i ↦
      schedule_next_timer now
        (record s { items = delete key s.items; heap = heap_remove i.key s.heap })
]

unfoldable pub do_clear : KeyedScheduler → KeyedScheduler
unfolding clear_timer
do_clear s = clear_timer (record s { items = []; heap = [] })

-- Enqueue, Cancel and Clear put an action into the channel; the time of an item is fixed there.
pub data Action : Type 0 where
  enqueues : String → ℕ → Action
  cancels : String → Action
  clears : Action

unfoldable pub due_at : ℕ → ℤ → ℕ
due_at now (ℤ.pos d) = now + d
due_at now (ℤ.negsuc d) = now - suc d

unfoldable pub enqueue : ℕ → String → ℤ → Action
unfolding due_at
enqueue now key delay = enqueues key (due_at now delay)

unfoldable pub run_action : ℕ → Action → KeyedScheduler → KeyedScheduler
unfolding do_enqueue do_cancel do_clear
run_action now (enqueues key ts) s = do_enqueue now (entry key ts) s
run_action now (cancels key) s = do_cancel now key s
run_action now clears s = do_clear s

unfoldable pub pop_top : Entry → List Entry → KeyedScheduler → KeyedScheduler
pop_top top rest s = record s { heap = rest; items = delete top.key s.items }

-- The next turn of the loop of fireDue: the key that it sends, or none at its end.
unfoldable pub next_due : ℕ → KeyedScheduler → Option (String × KeyedScheduler)
unfolding pop_top
next_due now s = elim s.heap [
  | [] ↦ none
  | top ∷ rest ↦
      if length s.items == 0
      then none
      else if ltb now top.ts
      then none
      else some (top.key, pop_top top rest s)
]

-- The loop, when each key it sends is received; a turn takes one item of the heap.
unfoldable pub take_due : ℕ → List Entry → KeyedScheduler → List String × KeyedScheduler
unfolding next_due
take_due now [] s = ([], s)
take_due now (i ∷ q) s = elim (next_due now s) [
  | none ↦ ([], s)
  | some r ↦ let rest = take_due now q r.1 in (r.0 ∷ rest.0, rest.1)
]

unfoldable pub fire_due : ℕ → KeyedScheduler → List String × KeyedScheduler
unfolding take_due schedule_next_timer
fire_due now s = let sent = take_due now s.heap s in (sent.0, schedule_next_timer now sent.1)

-- The branch of the timer.
unfoldable pub on_timer : ℕ → KeyedScheduler → List String × KeyedScheduler
unfolding clear_timer fire_due
on_timer now s = fire_due now (clear_timer s)
