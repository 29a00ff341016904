-- ===== src/Scheduler/Actions.antt =====
-- Every action keeps the invariant of the scheduler, and the earliest time of a key wins.
use mathlib.Core.Path.{subst}
use audio_rtc_exp.Prelude.{
  ℕ, ◌≡◌, ◌≢◌, refl, sym, ◌∙◌, inl, inr, String, List, [], ◌∷◌, Option, none, some, arith, eq_iff,
  All, lookup, insert, delete, length, lookup-insert, lookup-delete, length-insert, length-delete,
  insert-IsMap, delete-IsMap, IsMap, leb, ◌==◌, nat_eq, string_eq, string_eq_refl, if◌then◌else◌,
  true, false, Bool-cases, Option-cases,
}
use audio_rtc_exp.Zset.{heap_push, heap_remove}
use audio_rtc_exp.Zset.Order.{
  find, IsQueue, find-heap_push, find-heap_remove, heap_push-IsQueue, heap_remove-IsQueue,
  length-heap_push, length-heap_remove, key-find,
}
use audio_rtc_exp.Scheduler.{
  Entry, entry, KeyedScheduler, clear_timer, arm, schedule_next_timer, with_item, do_enqueue,
  do_cancel, do_clear, Action, enqueues, cancels, clears, run_action,
}
use audio_rtc_exp.Scheduler.Timer.{Fires, IsValid, IsQueued, schedule_next_timer-IsValid}

dated-heap_push :
    (i : Entry) (q : List Entry)
    → i.ts ≢ 0
    → All (λ y. y.ts ≢ 0) q
    → All (λ y. y.ts ≢ 0) (heap_push i q)
unfolding heap_push
dated-heap_push i [] h p = (h, tt)
dated-heap_push i (x ∷ q) h p = ground (arith, dated-heap_push i q h p.1)

dated-heap_remove :
    (k : String) (q : List Entry) → All (λ y. y.ts ≢ 0) q → All (λ y. y.ts ≢ 0) (heap_remove k q)
unfolding heap_remove
dated-heap_remove k [] p = tt
dated-heap_remove k (x ∷ q) p = ground (arith, dated-heap_remove k q p.1)

-- A queue without the item's key takes the item in.
with_item-IsQueued :
    (now : ℕ) (i : Entry) (q : List Entry) (s : KeyedScheduler)
    → IsQueue q
    → find i.key q ≡ none
    → ((k : String) → (i.key == k) ≡ false → lookup k s.items ≡ find k q)
    → IsMap s.items
    → length (insert i.key i s.items) ≡ length (heap_push i q)
    → All (λ y. y.ts ≢ 0) q
    → i.ts ≢ 0
    → Fires now s.timer_ts s.timer
    → IsQueued now (with_item i (record s { heap = q }))
with_item-IsQueued now i q s o f same m l d n h = record {
  queue = record {
    ordered = heap_push-IsQueue i q f o;
    indexed = insert-IsMap i.key i s.items m;
    same = λ k. elim (Bool-cases (i.key == k)) [
      | inl t ↦ ground (arith, lookup-insert i.key k i s.items, find-heap_push k i q f, t)
      | inr t ↦ ground (arith, lookup-insert i.key k i s.items, find-heap_push k i q f, t, same k t)
    ];
    sized = l;
  };
  dated = dated-heap_push i q n d;
  fires = h;
}

do_enqueue-IsValid :
    (now : ℕ) (i : Entry) (s : KeyedScheduler)
    → i.ts ≢ 0
    → IsValid now s
    → IsValid now (do_enqueue now i s)
unfolding do_enqueue
do_enqueue-IsValid now i s n v = elim (Option-cases (lookup i.key s.items)) [
  | inl e ↦
      rw (do_enqueue, e)
        (schedule_next_timer-IsValid now (with_item i s) (
          with_item-IsQueued now i s.heap s v.queue.ordered (ground (arith, v.queue.same i.key, e))
            (λ k t. v.queue.same k) v.queue.indexed
            (ground
              (arith, length-insert i.key i s.items, length-heap_push i s.heap, v.queue.sized, e))
            v.dated n v.fires))
  | inr (cur, e) ↦ elim (Bool-cases (leb cur.ts i.ts)) [
    | inl t ↦ rw (do_enqueue, e, t) v
    | inr t ↦
        let found : find i.key s.heap ≡ some cur = ground (arith, v.queue.same i.key, e) in
        let same_key : cur.key ≡ i.key = key-find i.key cur s.heap found in
        let q = heap_remove i.key s.heap in
        rw (do_enqueue, e, t)
          (subst
            (λ k.
              IsValid now
                (schedule_next_timer now (with_item i (record s { heap = heap_remove k s.heap }))))
            (sym same_key)
            (schedule_next_timer-IsValid now (with_item i (record s { heap = q })) (
              with_item-IsQueued now i q s (heap_remove-IsQueue i.key s.heap v.queue.ordered)
                (find-heap_remove i.key i.key s.heap v.queue.ordered
                  ∙ rw (string_eq_refl i.key) refl)
                (λ k f.
                  v.queue.same k
                  ∙ sym (find-heap_remove i.key k s.heap v.queue.ordered ∙ rw f refl))
                v.queue.indexed
                (ground (
                  arith,
                  length-insert i.key i s.items,
                  length-heap_push i q,
                  length-heap_remove i.key s.heap,
                  v.queue.sized,
                  e,
                  found,
                ))
                (dated-heap_remove i.key s.heap v.dated) n v.fires)))
  ]
]

removed-IsQueued :
    (now : ℕ) (key : String) (i : Entry) (s : KeyedScheduler)
    → IsValid now s
    → lookup key s.items ≡ some i
    → IsQueued now (record s { items = delete key s.items; heap = heap_remove key s.heap })
removed-IsQueued now key i s v e = record {
  queue = record {
    ordered = heap_remove-IsQueue key s.heap v.queue.ordered;
    indexed = delete-IsMap key s.items v.queue.indexed;
    same = λ j. ground (
      arith,
      lookup-delete key j s.items,
      find-heap_remove key j s.heap v.queue.ordered,
      v.queue.same j,
    );
    sized = ground (
      arith,
      length-delete key s.items v.queue.indexed,
      length-heap_remove key s.heap,
      v.queue.same key,
      v.queue.sized,
    );
  };
  dated = dated-heap_remove key s.heap v.dated;
  fires = v.fires;
}

do_cancel-IsValid :
    (now : ℕ) (key : String) (s : KeyedScheduler)
    → IsValid now s
    → IsValid now (do_cancel now key s)
unfolding do_cancel
do_cancel-IsValid now key s v = elim (Option-cases (lookup key s.items)) [
  | inl e ↦ rw (do_cancel, e) v
  | inr (i, e) ↦
      let same_key : i.key ≡ key = key-find key i s.heap (ground (arith, v.queue.same key, e)) in
      rw (do_cancel, e)
        (subst
          (λ k. IsValid now (
            schedule_next_timer now
              (record s { items = delete key s.items; heap = heap_remove k s.heap })))
          (sym same_key) (schedule_next_timer-IsValid now _ (removed-IsQueued now key i s v e)))
]

do_clear-IsValid : (now : ℕ) (s : KeyedScheduler) → IsValid now (do_clear s)
unfolding do_clear clear_timer find lookup
do_clear-IsValid now s = record {
  queue = record { ordered = tt; indexed = tt; same = λ k. refl; sized = refl };
  dated = tt;
  fires = refl;
  aims = tt;
}

-- An action of the channel whose item, if it has one, has a time.
abbrev pub Dated : Action → Type 0
Dated (enqueues key ts) = ts ≢ 0
Dated _ = Unit {0}

-- Every action keeps the invariant: the heap and the index hold the same items, each key once, and
-- while there are items the timer is set for the earliest, to fire at its time or, if that has
-- passed, no later than now.
pub run_action-IsValid :
    (now : ℕ) (a : Action) (s : KeyedScheduler)
    → Dated a
    → IsValid now s
    → IsValid now (run_action now a s)
unfolding run_action
run_action-IsValid now (enqueues key ts) s d v = do_enqueue-IsValid now (entry key ts) s d v
run_action-IsValid now (cancels key) s d v = do_cancel-IsValid now key s v
run_action-IsValid now clears s d v = do_clear-IsValid now s

-- The earlier of two times of a key, the first if they are equal.
abbrev pub earlier : Option Entry → Entry → Entry
earlier none i = i
earlier (some cur) i = if leb cur.ts i.ts then cur else i

items-schedule_next_timer :
    (now : ℕ) (s : KeyedScheduler) → (schedule_next_timer now s).items ≡ s.items
unfolding schedule_next_timer clear_timer arm
items-schedule_next_timer now s = ground arith

-- The items after an item is enqueued.
data Enqueued (now : ℕ) (i : Entry) (s : KeyedScheduler) : Type 0 where
  dropped :
      (cur : Entry)
      → lookup i.key s.items ≡ some cur
      → leb cur.ts i.ts ≡ true
      → do_enqueue now i s ≡ s
      → Enqueued now i s
  taken :
      earlier (lookup i.key s.items) i ≡ i
      → (do_enqueue now i s).items ≡ insert i.key i s.items
      → Enqueued now i s

Enqueued-total : (now : ℕ) (i : Entry) (s : KeyedScheduler) → Enqueued now i s
unfolding do_enqueue
Enqueued-total now i s = elim (Option-cases (lookup i.key s.items)) [
  | inl e ↦ taken (rw e refl) (rw (do_enqueue, e) (items-schedule_next_timer now (with_item i s)))
  | inr (cur, e) ↦ elim (Bool-cases (leb cur.ts i.ts)) [
    | inl t ↦ dropped cur e t (rw (do_enqueue, e, t) refl)
    | inr t ↦ taken (rw (e, t) refl) (
        rw (do_enqueue, e, t)
          (items-schedule_next_timer now
            (with_item i (record s { heap = heap_remove cur.key s.heap }))))
  ]
]

-- After an item is enqueued its key has the earliest of the times asked for, and every other key has
-- the item that it had.
pub lookup-do_enqueue :
    (now : ℕ) (i : Entry) (j : String) (s : KeyedScheduler)
    → lookup j (do_enqueue now i s).items
      ≡ (if i.key == j then some (earlier (lookup j s.items) i) else lookup j s.items)
lookup-do_enqueue now i j s = elim (Bool-cases (i.key == j)) [
  | inl f ↦
      let same : j ≡ i.key = sym ((eq_iff i.key j).0 f) in
      rw (f, same)
        (elim (Enqueued-total now i s) [
          | dropped cur e t g ↦ rw (g, e, t) refl
          | taken e g ↦
              rw (g, e) (lookup-insert i.key i.key i s.items ∙ rw (string_eq_refl i.key) refl)
        ])
  | inr f ↦ rw f (elim (Enqueued-total now i s) [
    | dropped cur e t g ↦ rw g refl
    | taken e g ↦ rw g (lookup-insert i.key j i s.items ∙ rw f refl)
  ])
]
