-- ===== src/Zset/Laws.antt =====
-- What Put, Remove, Peek and Pop do to a well-formed Zset: it is a map that hands out its earliest
-- entry.
use audio_rtc_exp.Prelude.{
  ℕ, ◌≡◌, refl, String, none, some, arith, eq_iff, lookup, delete, length, lookup-insert,
  lookup-delete, length-insert, length-delete, insert-IsMap, delete-IsMap, IsMap, ◌==◌, string_eq,
  if◌then◌else◌, inl, inr, Option-cases, string_eq_refl,
}
use audio_rtc_exp.Zset.{Item, Zset, heap_remove, new, remove, put}
use audio_rtc_exp.Zset.Order.{
  find, IsQueue, find-heap_push, find-heap_remove, heap_push-IsQueue, heap_remove-IsQueue,
  length-heap_push, length-heap_remove,
}

module _ {T : Type 0} where
  -- The queue and the index hold the same items, the queue in order of time.
  pub record IsValid (z : Zset T) : Type 0 where
    pub ordered : IsQueue z.pq
    pub indexed : IsMap z.items
    pub same : (k : String) → lookup k z.items ≡ find k z.pq
    pub sized : length z.items ≡ length z.pq

  pub new-IsValid : IsValid new
  unfolding new find lookup
  new-IsValid = record { ordered = tt; indexed = tt; same = λ k. refl; sized = refl }

  taken-IsValid :
      (k : String) (i : Item T) (z : Zset T)
      → IsValid z
      → lookup k z.items ≡ some i
      → IsValid (record z { pq = heap_remove k z.pq; items = delete k z.items })
  taken-IsValid k i z v e = record {
    ordered = heap_remove-IsQueue k z.pq v.ordered;
    indexed = delete-IsMap k z.items v.indexed;
    same = λ j.
        ground (arith, lookup-delete k j z.items, find-heap_remove k j z.pq v.ordered, v.same j);
    sized =
        ground
          (arith, length-delete k z.items v.indexed, length-heap_remove k z.pq, v.same k, v.sized);
  }

  pub remove-IsValid : (k : String) (z : Zset T) → IsValid z → IsValid (remove k z)
  unfolding remove
  remove-IsValid k z v = elim (Option-cases (lookup k z.items)) [
    | inl e ↦ rw (e, remove) v
    | inr (i, e) ↦ rw (e, remove) (taken-IsValid k i z v e)
  ]

  -- After Remove the key is gone, and every other key has the entry that it had.
  pub lookup-remove :
      (k j : String) (z : Zset T)
      → lookup j (remove k z).items ≡ (if k == j then none else lookup j z.items)
  unfolding remove
  lookup-remove k j z = ground (arith, eq_iff k j, lookup-delete k j z.items)

  -- After Put the key has the new entry, and every other key has the entry that it had.
  pub lookup-put :
      (k j : String) (d : T) (ts : ℕ) (z : Zset T)
      → lookup j (put k d ts z).items
        ≡ (if k == j then some (record { key = k; ts = ts; payload = d }) else lookup j z.items)
  unfolding put
  lookup-put k j d ts z = ground (
    arith,
    eq_iff k j,
    lookup-insert k j (record { key = k; ts = ts; payload = d }) (remove k z).items,
    lookup-remove k j z,
  )

  pub put-IsValid : (k : String) (d : T) (ts : ℕ) (z : Zset T) → IsValid z → IsValid (put k d ts z)
  unfolding put
  put-IsValid k d ts z v =
      let r = remove k z in
      let w = remove-IsValid k z v in
      let i : Item T = record { key = k; ts = ts; payload = d } in
      let absent : find k r.pq ≡ none =
        ground (arith, w.same k, lookup-remove k k z, string_eq_refl k) in
      record {
        ordered = heap_push-IsQueue i r.pq absent w.ordered;
        indexed = insert-IsMap k i r.items w.indexed;
        same = λ j.
            ground (arith, lookup-insert k j i r.items, find-heap_push j i r.pq absent, w.same j);
        sized =
            ground (arith, length-insert k i r.items, length-heap_push i r.pq, w.same k, w.sized);
      }

  -- Put on a well-formed set keeps it well formed; afterwards the key has the new entry alone, and
  -- every other key has the entry that it had.
  pub put_refines :
      (k : String) (d : T) (ts : ℕ) (z : Zset T)
      → IsValid z
      → IsValid (put k d ts z)
        × ((j : String)
            → lookup j (put k d ts z).items ≡ (
                if k == j
                then some (record { key = k; ts = ts; payload = d })
                else lookup j z.items))
  put_refines k d ts z v = (put-IsValid k d ts z v, λ j. lookup-put k j d ts z)
