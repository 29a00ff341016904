-- ===== src/Zset.antt =====
-- backend/internal/zset: a sorted set by time over container/heap, of the Go library, which stands here
-- as the list `pq` of the items in the order of `Less`, in which it hands them out: `pq[0]` is the head,
-- heap.Push puts an item in its place, heap.Remove takes out the item that it is asked for. The index by
-- which an item is found there is in Zset/Heap.
pub mod Order
pub mod Laws
pub mod Drain
pub mod Sizes
pub mod Heap
mod Tests
use Prim.Native.Nat.{Ordering}
use Prim.Native.String.{compare}
use audio_rtc_exp.Prelude.{
  ℕ, zero, suc, Bool, String, List, [], ◌∷◌, ◌++◌, Option, none, some, Map, lookup, insert, delete,
  length, ltb, ◌==◌, nat_eq, string_eq, if◌then◌else◌,
}

pub record Item (T : Type 0) : Type 0 where
  pub key : String
  pub ts : ℕ
  pub payload : T

abbrev str_lt : String → String → Bool
str_lt a b = elim (compare a b) [ Ordering.lt ↦ Bool.true | _ ↦ Bool.false ]

-- `time.Time{}` and the zero of T do not arise: an empty set answers `none`.
pub record Zset (T : Type 0) : Type 0 where
  pub pq : List (Item T)
  pub items : Map (Item T)

module _ {T : Type 0} where
  unfoldable pub less : Item T → Item T → Bool
  less a b = if a.ts == b.ts then str_lt a.key b.key else ltb a.ts b.ts

  -- heap.Push
  unfoldable pub heap_push : Item T → List (Item T) → List (Item T)
  unfolding less
  heap_push i [] = i ∷ []
  heap_push i (x ∷ q) = if less i x then i ∷ x ∷ q else x ∷ heap_push i q

  -- heap.Remove at the index of the item with the key
  unfoldable pub heap_remove : String → List (Item T) → List (Item T)
  heap_remove k [] = []
  heap_remove k (x ∷ q) = if x.key == k then q else x ∷ heap_remove k q

  unfoldable pub new : Zset T
  new = record { pq = []; items = [] }

  unfoldable pub len : Zset T → ℕ
  len z = length z.items

  unfoldable pub remove : String → Zset T → Zset T
  unfolding heap_remove
  remove k z = elim (lookup k z.items) [
    | none ↦ z
    | some i ↦ record z { pq = heap_remove k z.pq; items = delete k z.items }
  ]

  unfoldable pub put : String → T → ℕ → Zset T → Zset T
  unfolding remove heap_push
  put k d ts z =
      let r = remove k z in
      let i : Item T = record { key = k; ts = ts; payload = d } in
      record r { pq = heap_push i r.pq; items = insert k i r.items }

  unfoldable pub peek : Zset T → Option (Item T)
  peek z = elim z.pq [ [] ↦ none | i ∷ q ↦ some i ]

  unfoldable pub pop : Zset T → Option (Item T) × Zset T
  pop z = elim z.pq [
    | [] ↦ (none, z)
    | i ∷ q ↦ (some i, record z { pq = q; items = delete i.key z.items })
  ]

  -- One turn of the loop of PopBefore for each item that may still be taken.
  unfoldable pub pop_before : ℕ → ℕ → Zset T → List (Item T) × Zset T
  pop_before t zero z = ([], z)
  pop_before t (suc n) z = elim z.pq [
    | [] ↦ ([], z)
    | i ∷ q ↦
        let rest = pop_before t n (record z { pq = q; items = delete i.key z.items }) in
        if ltb t i.ts then ([], z) else (i ∷ rest.0, rest.1)
  ]
