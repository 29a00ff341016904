-- ===== src/Zset/Tests.antt =====
-- The Zset at concrete entries.
use audio_rtc_exp.Prelude.{
  ℕ, ◌≡◌, refl, String, List, ℤ, arith, length, [], ◌∷◌, some, lookup, insert, delete, string_eq,
}
use audio_rtc_exp.Zset.{Zset, new, put, peek, pop_before}
use audio_rtc_exp.Zset.Heap.{Node, get_elem?, set_elem, swap, push}
use audio_rtc_exp.Zset.Heap.Indices.{
  Call, swaps, pushes, call, run, IsIndexed, remove_at, run-remove_at,
}

abbrev two : Zset String
two = put "b" "r1" 20 (put "a" "r2" 10 new)

-- A second Put of a key moves it.
moved : peek (put "a" "r2" 30 two) ≡ some (record { key = "b"; ts = 20; payload = "r1" })
unfolding peek put new lookup insert delete
moved = refl

-- Equal times are ordered by key.
tie : peek (put "0" "r3" 10 two) ≡ some (record { key = "0"; ts = 10; payload = "r3" })
unfolding peek put new lookup insert delete
tie = refl

due : (pop_before 15 8 two).0 ≡ record { key = "a"; ts = 10; payload = "r2" } ∷ []
unfolding pop_before put new lookup insert delete
due = refl

abbrev node : String → ℕ → ℤ → Node String
node key ts index = record { key = key; ts = ts; index = index; payload = "" }

-- Three items, the earliest pushed last.
abbrev calls : List (Call String)
calls =
    pushes (node "a" 20 (ℤ.pos 0))
    ∷ pushes (node "b" 30 (ℤ.pos 0))
    ∷ pushes (node "c" 10 (ℤ.pos 0))
    ∷ swaps 0 2
    ∷ []

abbrev queue : List (Node String)
queue = node "c" 10 (ℤ.pos 0) ∷ node "b" 30 (ℤ.pos 1) ∷ node "a" 20 (ℤ.pos 2) ∷ []

run-remove_at_example :
    (left : List (Node String)) × (remove_at 0 ((0, 1) ∷ []) queue
      ≡ some (node "c" 10 (ℤ.negsuc 0), left))
    × (length left ≡ 2)
    × IsIndexed left
unfolding run call push swap get_elem? set_elem
run-remove_at_example =
    run-remove_at calls [] queue 0 0 (node "c" 10 (ℤ.pos 0)) ((0, 1) ∷ [])
      (omega arith, omega arith, tt) (λ i x e. absurd (ground (arith, e))) refl refl refl
      ((omega arith, omega arith), tt)
