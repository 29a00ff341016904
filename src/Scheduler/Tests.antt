-- ===== src/Scheduler/Tests.antt =====
-- The scheduler at concrete values.
use audio_rtc_exp.Prelude.{
  ℕ, zero, suc, ◌≡◌, refl, String, List, [], ◌∷◌, some, arith, lookup, string_eq, nat_eq, ℤ,
}
use audio_rtc_exp.Zset.Order.{find}
use audio_rtc_exp.Scheduler.{
  entry, KeyedScheduler, new_keyed_scheduler, clear_timer, run_action, enqueues, do_enqueue,
  on_timer,
}
use audio_rtc_exp.Scheduler.Timer.{IsValid}
use audio_rtc_exp.Scheduler.Actions.{run_action-IsValid, lookup-do_enqueue, earlier}
use audio_rtc_exp.Scheduler.Due.{keys_due, not_due, on_timer_sends}
use audio_rtc_exp.Scheduler.Channel.{System, selecting, enqueueing, Steps, IsStuck, start_deadlocks}

fresh-IsValid : IsValid 5 (clear_timer (new_keyed_scheduler 5))
unfolding clear_timer new_keyed_scheduler find lookup
fresh-IsValid = record {
  queue = record { ordered = tt; indexed = tt; same = λ k. refl; sized = refl };
  dated = tt;
  fires = refl;
  aims = tt;
}

-- r1 in a while, r2 at once
abbrev first : KeyedScheduler
first = run_action 5 (enqueues "r1" 9) (clear_timer (new_keyed_scheduler 5))

first-IsValid : IsValid 5 first
first-IsValid =
    run_action-IsValid 5 (enqueues "r1" 9) (clear_timer (new_keyed_scheduler 5))
      (λ e. omega (arith, e)) fresh-IsValid

abbrev both : KeyedScheduler
both = run_action 5 (enqueues "r2" 6) first

run_action-IsValid_example : IsValid 5 both
run_action-IsValid_example =
    run_action-IsValid 5 (enqueues "r2" 6) first (λ e. omega (arith, e)) first-IsValid

lookup-do_enqueue_example :
    lookup "r1" (do_enqueue 5 (entry "r1" 7) first).items
    ≡ some (earlier (lookup "r1" first.items) (entry "r1" 7))
lookup-do_enqueue_example = lookup-do_enqueue 5 (entry "r1" 7) "r1" first

both-IsValid : IsValid 5 both
both-IsValid = run_action-IsValid 5 (enqueues "r2" 6) first (λ e. omega (arith, e)) first-IsValid

on_timer_sends_example :
    ((on_timer 6 both).0 ≡ keys_due 6 both.heap)
    × ((on_timer 6 both).1.heap ≡ not_due 6 both.heap)
    × IsValid 6 (on_timer 6 both).1
on_timer_sends_example = on_timer_sends 5 6 both both-IsValid

-- The same id enqueued n times.
abbrev many : ℕ → List (String × ℤ)
many zero = []
many (suc n) = ("r2", ℤ.pos 0) ∷ many n

start_deadlocks_example :
    (y : System) × Steps
      (record {
        phase = selecting (new_keyed_scheduler 5);
        chan_enqueue = [];
        client = enqueueing (("r1", ℤ.pos 0) ∷ many 101);
      })
      y
    × IsStuck y
start_deadlocks_example = start_deadlocks 5 "r1" (many 101) (λ e. omega (arith, e)) (omega arith)
