-- ===== src/Scheduler/Due.antt =====
-- When its timer fires, the scheduler sends exactly the keys that are due, in order of time.
use audio_rtc_exp.Prelude.{
  ℕ, ◌≤◌, ◌<◌, ◌≡◌, ◌≢◌, refl, sym, ap, ◌∙◌, inl, inr, String, List, [], ◌∷◌, none, some, arith,
  All, length, ltb, ◌==◌, nat_eq, string_eq, if◌then◌else◌, true, false, Bool-cases,
}
use audio_rtc_exp.Zset.Order.{IsQueue}
use audio_rtc_exp.Zset.Laws as Zset_laws
use audio_rtc_exp.Zset.Drain.{behead-IsValid}
use audio_rtc_exp.Scheduler.{
  Entry, KeyedScheduler, clear_timer, schedule_next_timer, pop_top, next_due, take_due, fire_due,
  on_timer, arm,
}
use audio_rtc_exp.Scheduler.Timer.{view, IsValid, schedule_next_timer-IsValid}

-- The keys of a list that are due, in order.
abbrev pub keys_due : ℕ → List Entry → List String
keys_due now [] = []
keys_due now (i ∷ q) = if ltb now i.ts then keys_due now q else i.key ∷ keys_due now q

abbrev pub not_due : ℕ → List Entry → List Entry
not_due now [] = []
not_due now (i ∷ q) = if ltb now i.ts then i ∷ not_due now q else not_due now q

none_due :
    (now : ℕ) (t : ℕ) (q : List Entry)
    → now < t
    → All (λ i. t ≤ i.ts) q
    → (keys_due now q ≡ []) × (not_due now q ≡ q)
none_due now t [] h p = (refl, refl)
none_due now t (i ∷ q) h p =
    let late : ltb now i.ts ≡ true = ground arith in
    rw late ((none_due now t q h p.1).0, ap (λ r. i ∷ r) (none_due now t q h p.1).1)

-- What the loop of fireDue leaves.
record Takes (now : ℕ) (s : KeyedScheduler) (sent : List String × KeyedScheduler) : Type 0 where
  keys : sent.0 ≡ keys_due now s.heap
  left : sent.1.heap ≡ not_due now s.heap
  queue : Zset_laws.IsValid (view sent.1)
  timer_kept : (sent.1.timer ≡ s.timer) × (sent.1.timer_ts ≡ s.timer_ts)

next_due-late :
    (now : ℕ) (i : Entry) (q : List Entry) (s : KeyedScheduler)
    → s.heap ≡ i ∷ q
    → (length s.items == 0) ≡ false
    → ltb now i.ts ≡ true
    → next_due now s ≡ none
unfolding next_due
next_due-late now i q s e f t = rw (next_due, e) (rw f (rw t refl))

next_due-due :
    (now : ℕ) (i : Entry) (q : List Entry) (s : KeyedScheduler)
    → s.heap ≡ i ∷ q
    → (length s.items == 0) ≡ false
    → ltb now i.ts ≡ false
    → next_due now s ≡ some (i.key, pop_top i q s)
unfolding next_due
next_due-due now i q s e f t = rw (next_due, e) (rw f (rw t refl))

Takes-take_due :
    (now : ℕ) (q : List Entry) (s : KeyedScheduler)
    → s.heap ≡ q
    → Zset_laws.IsValid (view s)
    → Takes now s (take_due now q s)
unfolding take_due next_due pop_top
Takes-take_due now [] s e v = record {
  keys = rw e refl;
  left = rw e refl;
  queue = v;
  timer_kept = (refl, refl);
}
Takes-take_due now (i ∷ q) s e v =
    let filled : (length s.items == 0) ≡ false = ground (arith, v.sized, e) in
    let o : IsQueue (i ∷ q) = rw e at v.ordered in
    elim (Bool-cases (ltb now i.ts)) [
      | inl t ↦
          let later = none_due now i.ts q (ground arith) o.0 in
          rw (take_due, next_due-late now i q s e filled t)
            (record {
              keys = rw e (rw t (sym later.0));
              left = rw e (rw t (ap (λ r. i ∷ r) (sym later.1)));
              queue = v;
              timer_kept = (refl, refl);
            })
      | inr t ↦
          let rest = Takes-take_due now q (pop_top i q s) refl (behead-IsValid i q (view s) e v) in
          rw (take_due, next_due-due now i q s e filled t)
            (record {
              keys = rw (e, t) (ap (λ ks. i.key ∷ ks) rest.keys);
              left = rw (e, t) rest.left;
              queue = rest.queue;
              timer_kept = rest.timer_kept;
            })
    ]

dated-not_due :
    (now : ℕ) (q : List Entry) → All (λ i. i.ts ≢ 0) q → All (λ i. i.ts ≢ 0) (not_due now q)
dated-not_due now [] p = tt
dated-not_due now (i ∷ q) p = ground (arith, dated-not_due now q p.1)

heap-schedule_next_timer :
    (now : ℕ) (s : KeyedScheduler) → (schedule_next_timer now s).heap ≡ s.heap
unfolding schedule_next_timer clear_timer arm
heap-schedule_next_timer now s = ground arith

-- When the timer fires, the keys that are due are sent in order of time, each once; the items that are
-- not due stay, and the timer is set for the earliest of them.
pub on_timer_sends :
    (set_at now : ℕ) (s : KeyedScheduler)
    → IsValid set_at s
    → ((on_timer now s).0 ≡ keys_due now s.heap)
      × ((on_timer now s).1.heap ≡ not_due now s.heap)
      × IsValid now (on_timer now s).1
unfolding on_timer fire_due clear_timer
on_timer_sends set_at now s v =
    let c = clear_timer s in
    let t = Takes-take_due now s.heap c refl v.queue in
    let u = (take_due now s.heap c).1 in
    (
      t.keys,
      heap-schedule_next_timer now u ∙ t.left,
      schedule_next_timer-IsValid now u (record {
        queue = t.queue;
        dated = rw t.left (dated-not_due now s.heap v.dated);
        fires = rw (t.timer_kept.0, t.timer_kept.1) refl;
      }),
    )

-- The timer is never early: when it fires while there are items, the earliest is due and is the first
-- key that is sent.
pub on_timer_first :
    (set_at now t : ℕ) (top : Entry) (rest : List Entry) (s : KeyedScheduler)
    → IsValid set_at s
    → s.heap ≡ top ∷ rest
    → s.timer ≡ some t
    → t ≤ now
    → (on_timer now s).0 ≡ top.key ∷ keys_due now rest
on_timer_first set_at now t top rest s v e f l =
    let dated : All (λ i. i.ts ≢ 0) (top ∷ rest) = rw e at v.dated in
    let due : ltb now top.ts ≡ false = ground (arith, rw e at v.aims, rw f at v.fires, dated.0) in
    (on_timer_sends set_at now s v).0 ∙ rw (e, due) refl
