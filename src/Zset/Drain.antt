-- ===== src/Zset/Drain.antt =====
-- Pop and PopBefore: the earliest entries come out, in order of time, and nothing else changes.
use audio_rtc_exp.Prelude.{
  ℕ, zero, suc, ◌≤◌, ◌<◌, ◌≡◌, refl, ◌⊎◌, inl, inr, String, List, [], ◌∷◌, Option, none, some,
  arith, eq_iff, lookup, delete, length, lookup-delete, length-delete, delete-IsMap, ltb, All,
  Bool-cases, ◌==◌, string_eq, if◌then◌else◌, string_eq_refl,
}
use audio_rtc_exp.Zset.{Item, Zset, peek, pop, pop_before}
use audio_rtc_exp.Zset.Order.{find, IsQueue, le-find}
use audio_rtc_exp.Zset.Laws.{IsValid}

module _ {T : Type 0} where
  -- What is left when the head of the queue is taken.
  abbrev pub behead : Item T → List (Item T) → Zset T → Zset T
  behead i q z = record z { pq = q; items = delete i.key z.items }

  find-tail :
      (j : String) (i : Item T) (q : List (Item T))
      → IsQueue (i ∷ q)
      → find j q ≡ (if i.key == j then none else find j (i ∷ q))
  unfolding find
  find-tail j i q h = ground (arith, eq_iff i.key j)

  find-head : (i : Item T) (q : List (Item T)) → find i.key (i ∷ q) ≡ some i
  unfolding find
  find-head i q = ground (arith, string_eq_refl i.key)

  pub behead-IsValid :
      (i : Item T) (q : List (Item T)) (z : Zset T)
      → z.pq ≡ i ∷ q
      → IsValid z
      → IsValid (behead i q z)
  behead-IsValid i q z e v =
      let o : IsQueue (i ∷ q) = rw e at v.ordered in
      record {
        ordered = o.2;
        indexed = delete-IsMap i.key z.items v.indexed;
        same = λ j.
            ground (arith, lookup-delete i.key j z.items, find-tail j i q o, rw e at (v.same j));
        sized = ground (
          arith,
          length-delete i.key z.items v.indexed,
          rw e at (v.same i.key),
          find-head i q,
          rw e at v.sized,
        );
      }

  -- `i` is stored under its key, and no entry is earlier.
  pub record IsEarliest (i : Item T) (z : Zset T) : Type 0 where
    pub stored : lookup i.key z.items ≡ some i
    pub least : (k : String) (j : Item T) → lookup k z.items ≡ some j → i.ts ≤ j.ts

  le-head :
      (i : Item T) (q : List (Item T)) (k : String) (j : Item T)
      → IsQueue (i ∷ q)
      → find k (i ∷ q) ≡ some j
      → i.ts ≤ j.ts
  unfolding find
  le-head i q k j h e = ground (arith, le-find i.ts k j q h.0)

  pub head-IsEarliest :
      (i : Item T) (q : List (Item T)) (z : Zset T) → z.pq ≡ i ∷ q → IsValid z → IsEarliest i z
  head-IsEarliest i q z e v =
      let o : IsQueue (i ∷ q) = rw e at v.ordered in
      record {
        stored = ground (arith, rw e at (v.same i.key), find-head i q);
        least = λ k j l. le-head i q k j o (ground (arith, rw e at (v.same k)));
      }

  -- What Pop may answer: nothing from an empty set, or the earliest entry, which is then gone while
  -- every other entry stays.
  abbrev pub Popped : Zset T → Option (Item T) × Zset T → Type 0
  Popped z (none, w) = (length z.items ≡ 0) × (w ≡ z)
  Popped z (some i, w) =
      IsEarliest i z
      × IsValid w
      × ((j : String) → lookup j w.items ≡ (if i.key == j then none else lookup j z.items))

  pop-cases : (z : Zset T) (q : List (Item T)) → z.pq ≡ q → IsValid z → Popped z (pop z)
  unfolding pop
  pop-cases z [] e v = simp (e, pop) (ground (arith, rw e at v.sized), refl)
  pop-cases z (i ∷ q) e v =
      simp (e, pop)
        (head-IsEarliest i q z e v, behead-IsValid i q z e v, λ j. lookup-delete i.key j z.items)

  -- Pop answers the earliest entry of a well-formed set and removes it alone.
  pub pop_earliest : (z : Zset T) → IsValid z → Popped z (pop z)
  pop_earliest z v = pop-cases z z.pq refl v

  -- Peek answers what Pop answers.
  pub peek-pop : (z : Zset T) → peek z ≡ (pop z).0
  unfolding peek pop
  peek-pop z = ground arith

  -- After PopBefore either the limit is reached, or nothing is left that is due.
  abbrev pub Drained : ℕ → ℕ → List (Item T) × Zset T → Type 0
  Drained t n (out, w) =
      All (λ i. i.ts ≤ t) out
      × (length out ≤ n)
      × IsValid w
      × ((length out ≡ n) ⊎ ((k : String) (j : Item T) → lookup k w.items ≡ some j → t < j.ts))

  Drained-empty : (t n : ℕ) (z : Zset T) → z.pq ≡ [] → IsValid z → Drained t n ([], z)
  unfolding find
  Drained-empty t n z e v = (tt, omega arith, v, inr (λ k j l. ground (arith, rw e at (v.same k))))

  Drained-late :
      (t n : ℕ) (i : Item T) (q : List (Item T)) (z : Zset T)
      → z.pq ≡ i ∷ q
      → t < i.ts
      → IsValid z
      → Drained t n ([], z)
  Drained-late t n i q z e h v =
      let m = head-IsEarliest i q z e v in
      (tt, omega arith, v, inr (λ k j l. omega (arith, m.least k j l)))

  Drained-next :
      (t n : ℕ) (i : Item T) (r : List (Item T) × Zset T)
      → i.ts ≤ t
      → Drained t n r
      → Drained t (suc n) (i ∷ r.0, r.1)
  Drained-next t n i (out, w) h (a, b, c, inl d) = ((h, a), omega arith, c, inl (omega arith))
  Drained-next t n i (out, w) h (a, b, c, inr d) = ((h, a), omega arith, c, inr d)

  -- PopBefore on a well-formed set returns entries that are due, at most the limit, and stops short
  -- of the limit only when nothing due is left; the set stays well formed.
  pub pop_before_drains : (t n : ℕ) (z : Zset T) → IsValid z → Drained t n (pop_before t n z)
  unfolding pop_before
  pop_before_drains t zero z v = (tt, omega arith, v, inl refl)
  pop_before_drains t (suc n) z v =
      split z.pq refl (λ i q e. pop_before_drains t n (behead i q z) (behead-IsValid i q z e v))
    where
      split :
          (q : List (Item T))
          → z.pq ≡ q
          → ((i : Item T) (r : List (Item T))
              → z.pq ≡ i ∷ r
              → Drained t n (pop_before t n (behead i r z)))
          → Drained t (suc n) (pop_before t (suc n) z)
      split [] e ih = rw (e, pop_before) (Drained-empty t (suc n) z e v)
      split (i ∷ q) e ih = elim (Bool-cases (ltb t i.ts)) [
        | inl late ↦ rw (e, pop_before, late) (Drained-late t (suc n) i q z e (ground arith) v)
        | inr due ↦ rw (e, pop_before, due) (Drained-next t n i _ (ground arith) (ih i q e))
      ]
