-- ===== src/Zset/Heap.antt =====
-- backend/internal/zset/pqueue.go, which is the same text as backend/internal/scheduler/queue.go: the
-- methods by which container/heap changes a queue, with the index that each item keeps of its slot.
-- Which of them container/heap calls, and in what order, is an argument.
pub mod Indices
use audio_rtc_exp.Prelude.{
  ℕ, zero, suc, ◌+◌, ◌-◌, ◌<◌, ◌≡◌, refl, ap, sym, ◌∙◌, All, inl, inr, String, List, [], ◌∷◌, ◌++◌,
  Option, none, some, arith, ℤ, length, length-append, ◌==◌, nat_eq, string_eq, if◌then◌else◌,
  Option-cases, Bool-cases, true, false, Bool, ltb,
}

-- An item with its index.
pub record Node (T : Type 0) : Type 0 where
  pub key : String
  pub ts : ℕ
  pub index : ℤ
  pub payload : T

module _ {A : Type 0} where
  unfoldable pub get_elem? : List A → ℕ → Option A
  get_elem? [] i = none
  get_elem? (x ∷ xs) zero = some x
  get_elem? (x ∷ xs) (suc i) = get_elem? xs i

  unfoldable pub set_elem : List A → ℕ → A → List A
  set_elem [] i v = []
  set_elem (x ∷ xs) zero v = v ∷ xs
  set_elem (x ∷ xs) (suc i) v = x ∷ set_elem xs i v

  pub get_elem?-set_elem :
      (xs : List A) (i j : ℕ) (v : A)
      → i < length xs
      → get_elem? (set_elem xs i v) j ≡ (if i == j then some v else get_elem? xs j)
  unfolding get_elem? set_elem
  get_elem?-set_elem [] i j v h = absurd (omega (arith, h))
  get_elem?-set_elem (x ∷ xs) zero zero v h = refl
  get_elem?-set_elem (x ∷ xs) zero (suc j) v h = ground arith
  get_elem?-set_elem (x ∷ xs) (suc i) zero v h = ground arith
  get_elem?-set_elem (x ∷ xs) (suc i) (suc j) v h = ground (arith, get_elem?-set_elem xs i j v)

  pub length-set_elem : (xs : List A) (i : ℕ) (v : A) → length (set_elem xs i v) ≡ length xs
  unfolding set_elem
  length-set_elem [] i v = refl
  length-set_elem (x ∷ xs) zero v = refl
  length-set_elem (x ∷ xs) (suc i) v = ground (arith, length-set_elem xs i v)

  pub get_elem?-found : (xs : List A) (i : ℕ) → i < length xs → (x : A) × (get_elem? xs i ≡ some x)
  unfolding get_elem?
  get_elem?-found [] i h = absurd (omega (arith, h))
  get_elem?-found (x ∷ xs) zero h = (x, refl)
  get_elem?-found (x ∷ xs) (suc i) h = get_elem?-found xs i (omega (arith, h))

  pub get_elem?-append :
      (xs : List A) (v : A) (i : ℕ)
      → get_elem? (xs ++ v ∷ []) i ≡ (if i == length xs then some v else get_elem? xs i)
  unfolding get_elem?
  get_elem?-append [] v zero = refl
  get_elem?-append [] v (suc i) = ground arith
  get_elem?-append (x ∷ xs) v zero = ground arith
  get_elem?-append (x ∷ xs) v (suc i) = ground (arith, get_elem?-append xs v i)

  pub lt-get_elem? : (xs : List A) (i : ℕ) (x : A) → get_elem? xs i ≡ some x → i < length xs
  unfolding get_elem?
  lt-get_elem? [] i x e = ground (arith, e)
  lt-get_elem? (y ∷ xs) zero x e = omega arith
  lt-get_elem? (y ∷ xs) (suc i) x e = omega (arith, lt-get_elem? xs i x e)

  -- The last element and those before it.
  unfoldable pub split_last : List A → Option (A × List A)
  split_last [] = none
  split_last (x ∷ xs) =
      let rest = split_last xs in elim rest [ none ↦ some (x, []) | some r ↦ some (r.0, x ∷ r.1) ]

  pub split_last-whole :
      (xs : List A)
      → 0 < length xs
      → (x : A) × (before : List A) × (split_last xs ≡ some (x, before)) × (xs ≡ before ++ x ∷ [])
  unfolding split_last
  split_last-whole [] h = absurd (omega (arith, h))
  split_last-whole (x ∷ []) h = (x, [], refl, refl)
  split_last-whole (x ∷ y ∷ xs) h =
      let r = split_last-whole (y ∷ xs) (omega arith) in
      (r.0, x ∷ r.1, ground (arith, r.2), ap (◌∷◌ x) r.3)

module _ {T : Type 0} where
  abbrev pub at_index : ℤ → Node T → Node T
  at_index i x = record x { index = i }

  -- none is a panic for an index out of range.
  unfoldable pub swap : ℕ → ℕ → List (Node T) → Option (List (Node T))
  unfolding get_elem? set_elem
  swap i j pq = elim (get_elem? pq i) [
    | none ↦ none
    | some a ↦ elim (get_elem? pq j) [
      | none ↦ none
      | some b ↦ some (set_elem (set_elem pq i (at_index (ℤ.pos i) b)) j (at_index (ℤ.pos j) a))
    ]
  ]

  unfoldable pub push : Node T → List (Node T) → List (Node T)
  push x pq = pq ++ at_index (ℤ.pos (length pq)) x ∷ []

  unfoldable pub pop : List (Node T) → Option (Node T × List (Node T))
  unfolding split_last
  pop pq = elim (split_last pq) [
    | none ↦ none
    | some (x, before) ↦ some (at_index (ℤ.negsuc 0) x, before)
  ]
