-- ===== src/Zset/Heap/Indices.antt =====
-- The index of each item is the slot that it stands in, whatever container/heap does, and so
-- heap.Remove takes out the item that it is asked for.
use mathlib.Core.Path.{subst}
use audio_rtc_exp.Prelude.{
  ℕ, suc, ◌-◌, ◌<◌, ◌≡◌, ◌⊎◌, refl, ap, sym, ◌∙◌, All, inl, inr, List, [], ◌∷◌, ◌++◌, Option, none,
  some, arith, ℤ, length, length-append, ◌==◌, nat_eq, string_eq, if◌then◌else◌, true, false,
}
use audio_rtc_exp.Zset.Heap.{
  Node, get_elem?, set_elem, get_elem?-set_elem, length-set_elem, get_elem?-found, get_elem?-append,
  lt-get_elem?, split_last-whole, at_index, swap, push, pop,
}

-- The calls that change the queue.
pub data Call (T : Type 0) : Type 0 where
  swaps : ℕ → ℕ → Call T
  pushes : Node T → Call T
  pops : Call T

module _ {T : Type 0} where
  unfoldable pub call : Call T → List (Node T) → Option (List (Node T))
  unfolding swap push pop
  call (swaps i j) pq = swap i j pq
  call (pushes x) pq = some (push x pq)
  call pops pq = elim (pop pq) [ none ↦ none | some (x, rest) ↦ some rest ]

  unfoldable pub run : List (Call T) → List (Node T) → Option (List (Node T))
  unfolding call
  run [] pq = some pq
  run (c ∷ calls) pq = elim (call c pq) [ none ↦ none | some rest ↦ run calls rest ]

  -- Calls whose indices lie in a queue of so many items.
  abbrev pub Within : ℕ → List (Call T) → Type 0
  Within n [] = Unit
  Within n (swaps i j ∷ calls) = (i < n) × (j < n) × Within n calls
  Within n (pushes x ∷ calls) = Within (suc n) calls
  Within n (pops ∷ calls) = (0 < n) × Within (n - 1) calls

  -- Each item has the index of its slot.
  abbrev pub IsIndexed : List (Node T) → Type 0
  IsIndexed pq = (i : ℕ) (x : Node T) → get_elem? pq i ≡ some x → x.index ≡ ℤ.pos i

  -- A call is answered by a queue of so many items that is indexed.
  record Leaves (n : ℕ) (r : Option (List (Node T))) : Type 0 where
    left : List (Node T)
    answers : r ≡ some left
    sized : length left ≡ n
    indexed : IsIndexed left

  swap-Leaves :
      (i j : ℕ) (pq : List (Node T))
      → i < length pq
      → j < length pq
      → IsIndexed pq
      → Leaves (length pq) (swap i j pq)
  unfolding swap
  swap-Leaves i j pq h k d =
      let (a, e) = get_elem?-found pq i h in
      let (b, f) = get_elem?-found pq j k in
      let one = set_elem pq i (at_index (ℤ.pos i) b) in
      let size = length-set_elem pq i (at_index (ℤ.pos i) b) in
      record {
        left = set_elem one j (at_index (ℤ.pos j) a);
        answers = rw (swap, e, f) refl;
        sized = length-set_elem one j (at_index (ℤ.pos j) a) ∙ size;
        indexed = λ m x g. ground (
          arith,
          g,
          get_elem?-set_elem one j m (at_index (ℤ.pos j) a) (omega (arith, size, k)),
          get_elem?-set_elem pq i m (at_index (ℤ.pos i) b) h,
          d m x,
        );
      }

  push-Leaves :
      (x : Node T) (pq : List (Node T)) → IsIndexed pq → Leaves (suc (length pq)) (some (push x pq))
  unfolding push
  push-Leaves x pq d = record {
    left = push x pq;
    answers = refl;
    sized = omega (arith, length-append pq (at_index (ℤ.pos (length pq)) x ∷ []));
    indexed =
        λ m y g. ground (arith, g, get_elem?-append pq (at_index (ℤ.pos (length pq)) x) m, d m y);
  }

  front-IsIndexed :
      (pq before : List (Node T)) (x : Node T)
      → pq ≡ before ++ x ∷ []
      → IsIndexed pq
      → IsIndexed before
  front-IsIndexed pq before x f d m y g = d m y (
      ap (λ q. get_elem? q m) f
      ∙ (ground (arith, g, get_elem?-append before x m, lt-get_elem? before m y g)))

  pop-Leaves :
      (pq : List (Node T)) → 0 < length pq → IsIndexed pq → Leaves (length pq - 1) (call pops pq)
  unfolding call pop
  pop-Leaves pq h d =
      let (x, before, e, f) = split_last-whole pq h in
      let size : length pq ≡ suc (length before) =
        ap length f ∙ omega (arith, length-append before (x ∷ [])) in
      record {
        left = before;
        answers = rw (call, pop, e) refl;
        sized = omega (arith, size);
        indexed = front-IsIndexed pq before x f d;
      }

  call-Leaves :
      (c : Call T) (calls : List (Call T)) (pq : List (Node T))
      → Within (length pq) (c ∷ calls)
      → IsIndexed pq
      → (left : List (Node T)) × (call c pq ≡ some left)
        × Within (length left) calls
        × IsIndexed left
  unfolding call
  call-Leaves (swaps i j) calls pq w d =
      let s = swap-Leaves i j pq w.0 w.1 d in
      (s.left, s.answers, rw (sym s.sized) at w.2, s.indexed)
  call-Leaves (pushes x) calls pq w d =
      let s = push-Leaves x pq d in (s.left, s.answers, rw (sym s.sized) at w, s.indexed)
  call-Leaves pops calls pq w d =
      let s = pop-Leaves pq w.0 d in (s.left, s.answers, rw (sym s.sized) at w.1, s.indexed)

  -- In any sequence of Swap, Push and Pop whose indices lie in the queue, none of them panics, and
  -- each item left in the queue has the index of its slot if that was so before.
  pub run-IsIndexed :
      (calls : List (Call T)) (pq : List (Node T))
      → Within (length pq) calls
      → IsIndexed pq
      → (left : List (Node T)) × (run calls pq ≡ some left) × IsIndexed left
  unfolding run
  run-IsIndexed [] pq w d = (pq, refl, d)
  run-IsIndexed (c ∷ calls) pq w d =
      let (one, e, v, f) = call-Leaves c calls pq w d in
      let (left, g, h) = run-IsIndexed calls one v f in (left, rw (run, e) g, h)

  unfoldable pub swap_all : List (ℕ × ℕ) → List (Node T) → Option (List (Node T))
  unfolding swap
  swap_all [] pq = some pq
  swap_all ((i, j) ∷ more) pq = elim (swap i j pq) [ none ↦ none | some rest ↦ swap_all more rest ]

  -- What heap.Remove at index i calls: the slot is swapped with the last one, the slots before that
  -- are put in order by swaps, and the last one is popped.
  unfoldable pub remove_at : ℕ → List (ℕ × ℕ) → List (Node T) → Option (Node T × List (Node T))
  unfolding swap_all pop
  remove_at i ordering pq = elim (swap_all ((i, length pq - 1) ∷ ordering) pq) [
    | none ↦ none
    | some rest ↦ pop rest
  ]

  -- What stands in a slot after a swap: the second slot has the item of the first.
  swapped :
      (i j m : ℕ) (a : Node T) (pq left : List (Node T))
      → swap i j pq ≡ some left
      → get_elem? pq i ≡ some a
      → j < length pq
      → (j == m) ≡ true ⊎ (i == m) ≡ false
      → get_elem? left m ≡ (if j == m then some (at_index (ℤ.pos j) a) else get_elem? pq m)
  unfolding swap
  swapped i j m a pq left q e k c =
      let h = lt-get_elem? pq i a e in
      let (b, f) = get_elem?-found pq j k in
      let one = set_elem pq i (at_index (ℤ.pos i) b) in
      let size = length-set_elem pq i (at_index (ℤ.pos i) b) in
      let r : some (set_elem one j (at_index (ℤ.pos j) a)) ≡ some left =
        sym (rw (swap, e, f) refl) ∙ q in
      ground (
        arith,
        r,
        c,
        get_elem?-set_elem one j m (at_index (ℤ.pos j) a) (omega (arith, size, k)),
        get_elem?-set_elem pq i m (at_index (ℤ.pos i) b) h,
      )

  -- Swaps of earlier slots leave the last one.
  swap_all-last :
      (n : ℕ) (x : Node T) (ordering : List (ℕ × ℕ)) (pq : List (Node T))
      → length pq ≡ suc n
      → All (λ s. (s.0 < n) × (s.1 < n)) ordering
      → IsIndexed pq
      → get_elem? pq n ≡ some x
      → (left : List (Node T)) × (swap_all ordering pq ≡ some left)
        × (length left ≡ suc n)
        × IsIndexed left
        × (get_elem? left n ≡ some x)
  unfolding swap_all
  swap_all-last n x [] pq l w d e = (pq, refl, l, d, e)
  swap_all-last n x ((i, j) ∷ more) pq l w d e =
      let h : i < length pq = omega (arith, l, w.0.0) in
      let k : j < length pq = omega (arith, l, w.0.1) in
      let s = swap-Leaves i j pq h k d in
      let (a, f) = get_elem?-found pq i h in
      let stays : get_elem? s.left n ≡ some x = ground (
        arith,
        e,
        w.0.0,
        w.0.1,
        swapped i j n a pq s.left s.answers f k (inr (ground (arith, w.0.0))),
      ) in
      let (left, q, z, v, g) = swap_all-last n x more s.left (s.sized ∙ l) w.1 s.indexed stays in
      (left, rw (swap_all, s.answers) q, z, v, g)

  pop-last :
      (n : ℕ) (x : Node T) (pq : List (Node T))
      → length pq ≡ suc n
      → IsIndexed pq
      → get_elem? pq n ≡ some x
      → (left : List (Node T)) × (pop pq ≡ some (at_index (ℤ.negsuc 0) x, left))
        × (length left ≡ n)
        × IsIndexed left
  unfolding pop
  pop-last n x pq l d e =
      let (y, before, f, o) = split_last-whole pq (omega (arith, l)) in
      let size : length pq ≡ suc (length before) =
        ap length o ∙ omega (arith, length-append before (y ∷ [])) in
      let same : y ≡ x =
        ground (arith, e, ap (λ t. get_elem? t n) o, get_elem?-append before y n, l, size) in
      (
        before,
        rw (pop, f) (ap (λ t. some (at_index (ℤ.negsuc 0) t, before)) same),
        omega (arith, l, size),
        front-IsIndexed pq before y o d,
      )

  -- If each item has the index of its slot, heap.Remove at the index of an item takes out that item and
  -- sets its index to -1, however it puts the slots before the last in order, and each item left has
  -- the index of its slot.
  pub remove_at-IsIndexed :
      (slot i : ℕ) (x : Node T) (ordering : List (ℕ × ℕ)) (pq : List (Node T))
      → IsIndexed pq
      → get_elem? pq slot ≡ some x
      → x.index ≡ ℤ.pos i
      → All (λ s. (s.0 < length pq - 1) × (s.1 < length pq - 1)) ordering
      → (left : List (Node T)) × (remove_at i ordering pq ≡ some (at_index (ℤ.negsuc 0) x, left))
        × (length left ≡ length pq - 1)
        × IsIndexed left
  unfolding remove_at swap_all pop
  remove_at-IsIndexed slot i x ordering pq d e q w =
      let here : get_elem? pq i ≡ some x = ground (arith, e, q, d slot x e) in
      let h = lt-get_elem? pq i x here in
      let n = length pq - 1 in
      let k : n < length pq = omega (arith, h) in
      let s = swap-Leaves i n pq h k d in
      let last : get_elem? s.left n ≡ some (at_index (ℤ.pos n) x) =
        ground (arith, swapped i n n x pq s.left s.answers here k (inl (ground arith))) in
      let (left, r, z, v, g) =
        swap_all-last n (at_index (ℤ.pos n) x) ordering s.left (omega (arith, s.sized, h)) w
          s.indexed last in
      let (front, f, size, u) = pop-last n (at_index (ℤ.pos n) x) left z v g in
      (front, rw (remove_at, swap_all, s.answers, r) f, size, u)

  -- Take a queue in which each item has the index of its slot, and what is left of it after any
  -- sequence of Swap, Push and Pop whose indices lie in it. Then heap.Remove at the index of an item
  -- takes out that item, however it orders the slots before the last, sets its index to -1, and leaves
  -- one item less, each with the index of its slot.
  pub run-remove_at :
      (calls : List (Call T)) (start pq : List (Node T)) (slot i : ℕ) (x : Node T)
      (ordering : List (ℕ × ℕ))
      → Within (length start) calls
      → IsIndexed start
      → run calls start ≡ some pq
      → get_elem? pq slot ≡ some x
      → x.index ≡ ℤ.pos i
      → All (λ s. (s.0 < length pq - 1) × (s.1 < length pq - 1)) ordering
      → (left : List (Node T)) × (remove_at i ordering pq ≡ some (at_index (ℤ.negsuc 0) x, left))
        × (length left ≡ length pq - 1)
        × IsIndexed left
  run-remove_at calls start pq slot i x ordering w d e g q o =
      let (last, f, u) = run-IsIndexed calls start w d in
      let same : last ≡ pq = ground (arith, e, f) in
      let v : IsIndexed pq = subst IsIndexed same u in
      remove_at-IsIndexed slot i x ordering pq v g q o
