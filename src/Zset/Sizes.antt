-- ===== src/Zset/Sizes.antt =====
-- How many entries the operations leave, and that Pop and Remove bring no new ones.
use audio_rtc_exp.Prelude.{
  suc, ◌-◌, ◌≡◌, refl, String, List, [], ◌∷◌, none, some, arith, lookup, delete, length,
  length-delete, lookup-delete, ◌==◌, string_eq, nat_eq, if◌then◌else◌,
}
use audio_rtc_exp.Zset.{Item, Zset, remove, pop, peek}
use audio_rtc_exp.Zset.Laws.{IsValid}
use audio_rtc_exp.Zset.Drain.{behead-IsValid, IsEarliest, head-IsEarliest}

module _ {T : Type 0} (z : Zset T) (v : IsValid z) where
  pub length-remove :
      (k : String) (i : Item T)
      → lookup k z.items ≡ some i
      → suc (length (remove k z).items) ≡ length z.items
  unfolding remove
  length-remove k i e = ground (arith, e, length-delete k z.items v.indexed)

  -- The set is empty, or its head is what Peek shows and Pop takes.
  pub data Heads : Type 0 where
    empty : length z.items ≡ 0 → pop z ≡ (none, z) → peek z ≡ none → Heads
    heads :
        (i : Item T) (w : Zset T)
        → pop z ≡ (some i, w)
        → peek z ≡ some i
        → IsEarliest i z
        → IsValid w
        → suc (length w.items) ≡ length z.items
        → ((j : String) → lookup j w.items ≡ (if i.key == j then none else lookup j z.items))
        → Heads

  heads-of : (q : List (Item T)) → z.pq ≡ q → Heads
  unfolding pop peek
  heads-of [] e = empty (ground (arith, rw e at v.sized)) (ground arith) (ground arith)
  heads-of (i ∷ q) e =
      let w = behead-IsValid i q z e v in
      heads i (record z { pq = q; items = delete i.key z.items }) (ground arith) (ground arith)
        (head-IsEarliest i q z e v) w (ground (arith, w.sized, rw e at v.sized))
        (λ j. lookup-delete i.key j z.items)

  pub Heads_total : Heads
  Heads_total = heads-of z.pq refl

  pub pop-IsValid : IsValid (pop z).1
  pop-IsValid = elim Heads_total [
    | empty n e p ↦ rw e v
    | heads i w e p first valid size rest ↦ rw e valid
  ]

  pub length-pop : length (pop z).1.items ≡ length z.items - 1
  length-pop = elim Heads_total [
    | empty n e p ↦ rw e (omega arith)
    | heads i w e p first valid size rest ↦ rw e (omega arith)
  ]

  -- What is left after Pop was there before.
  pub lookup-pop :
      (j : String) (x : Item T) → lookup j (pop z).1.items ≡ some x → lookup j z.items ≡ some x
  lookup-pop j x h = elim Heads_total [
    | empty n e p ↦ rw e at h
    | heads i w e p first valid size rest ↦ ground (arith, rw e at h, rest j)
  ]
