-- ===== src/Zset/Order.antt =====
-- The queue of a Zset: it stays in order of time, and each key stands once.
use audio_rtc_exp.Prelude.{
  ℕ, suc, ◌≤◌, ◌≡◌, refl, String, List, [], ◌∷◌, Option, none, some, arith, eq_iff, All, length,
  is_some, ◌==◌, string_eq, if◌then◌else◌,
}
use audio_rtc_exp.Zset.{Item, heap_push, heap_remove}

module _ {T : Type 0} where
  -- The item of a key.
  unfoldable pub find : String → List (Item T) → Option (Item T)
  find k [] = none
  find k (x ∷ q) = if x.key == k then some x else find k q

  -- No item is later than one behind it, and no key stands twice.
  abbrev pub IsQueue : List (Item T) → Type 0
  IsQueue [] = Unit
  IsQueue (x ∷ q) = All (λ y. x.ts ≤ y.ts) q × (find x.key q ≡ none) × IsQueue q

  All-mono : (a b : ℕ) (q : List (Item T)) → a ≤ b → All (λ y. b ≤ y.ts) q → All (λ y. a ≤ y.ts) q
  All-mono a b [] h p = tt
  All-mono a b (x ∷ q) h p = (omega arith, All-mono a b q h p.1)

  All-heap_push :
      (a : ℕ) (i : Item T) (q : List (Item T))
      → a ≤ i.ts
      → All (λ y. a ≤ y.ts) q
      → All (λ y. a ≤ y.ts) (heap_push i q)
  unfolding heap_push
  All-heap_push a i [] h p = (h, tt)
  All-heap_push a i (x ∷ q) h p = ground (arith, All-heap_push a i q h p.1)

  All-heap_remove :
      (a : ℕ) (k : String) (q : List (Item T))
      → All (λ y. a ≤ y.ts) q
      → All (λ y. a ≤ y.ts) (heap_remove k q)
  unfolding heap_remove
  All-heap_remove a k [] p = tt
  All-heap_remove a k (x ∷ q) p = ground (arith, All-heap_remove a k q p.1)

  pub find-heap_push :
      (j : String) (i : Item T) (q : List (Item T))
      → find i.key q ≡ none
      → find j (heap_push i q) ≡ (if i.key == j then some i else find j q)
  unfolding find heap_push
  find-heap_push j i [] h = refl
  find-heap_push j i (x ∷ q) h =
      ground (arith, eq_iff i.key j, eq_iff x.key j, eq_iff x.key i.key, find-heap_push j i q)

  pub find-heap_remove :
      (k j : String) (q : List (Item T))
      → IsQueue q
      → find j (heap_remove k q) ≡ (if k == j then none else find j q)
  unfolding find heap_remove
  find-heap_remove k j [] h = ground arith
  find-heap_remove k j (x ∷ q) h =
      ground (arith, eq_iff k j, eq_iff x.key j, eq_iff x.key k, find-heap_remove k j q h.2)

  pub heap_push-IsQueue :
      (i : Item T) (q : List (Item T)) → find i.key q ≡ none → IsQueue q → IsQueue (heap_push i q)
  unfolding find heap_push
  heap_push-IsQueue i [] f h = (tt, refl, tt)
  heap_push-IsQueue i (x ∷ q) f h = ground (
    arith,
    eq_iff i.key x.key,
    eq_iff x.key i.key,
    heap_push-IsQueue i q,
    All-heap_push x.ts i q,
    All-mono i.ts x.ts q,
    find-heap_push x.key i q,
  )

  pub heap_remove-IsQueue : (k : String) (q : List (Item T)) → IsQueue q → IsQueue (heap_remove k q)
  unfolding find heap_remove
  heap_remove-IsQueue k [] h = tt
  heap_remove-IsQueue k (x ∷ q) h = ground (
    arith,
    eq_iff k x.key,
    eq_iff x.key k,
    heap_remove-IsQueue k q h.2,
    All-heap_remove x.ts k q h.0,
    find-heap_remove k x.key q h.2,
  )

  -- Whatever can be found is not before a bound of the queue.
  pub le-find :
      (a : ℕ) (k : String) (i : Item T) (q : List (Item T))
      → All (λ y. a ≤ y.ts) q
      → find k q ≡ some i
      → a ≤ i.ts
  unfolding find
  le-find a k i [] p e = ground arith
  le-find a k i (x ∷ q) p e = ground (arith, le-find a k i q p.1)

  -- What is found under a key has the key.
  pub key-find : (k : String) (i : Item T) (q : List (Item T)) → find k q ≡ some i → i.key ≡ k
  unfolding find
  key-find k i [] e = ground arith
  key-find k i (x ∷ q) e = ground (arith, eq_iff x.key k, key-find k i q)

  pub length-heap_push : (i : Item T) (q : List (Item T)) → length (heap_push i q) ≡ suc (length q)
  unfolding heap_push
  length-heap_push i [] = refl
  length-heap_push i (x ∷ q) = ground (arith, length-heap_push i q)

  pub length-heap_remove :
      (k : String) (q : List (Item T))
      → (if is_some (find k q) then suc (length (heap_remove k q)) else length (heap_remove k q))
        ≡ length q
  unfolding find heap_remove
  length-heap_remove k [] = refl
  length-heap_remove k (x ∷ q) = ground (arith, length-heap_remove k q)
