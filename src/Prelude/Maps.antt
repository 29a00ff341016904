-- ===== src/Prelude/Maps.antt =====
-- Go's `map[string]V` as an association list. Iteration (`range`) is over the list.
use Prim.Native.Nat.{suc, ◌≤◌}
use Prim.Native.String.{String}
use mathlib.Core.Path.{◌≡◌, refl}
use mathlib.Core.Option.{Option, none, some}
use mathlib.Core.List.{List, [], ◌∷◌}
use native.Mathlib.Omega.{arith}
use text.Mathlib.TextEquality.{eq_iff}
use mathlib.Core.Path.{◌∙◌}
use mathlib.Core.Logic.{inl, inr}
use mathlib.Core.Bool.{Bool}
use audio_rtc_exp.Prelude.Tests.{
  if◌then◌else◌, ◌==◌, string_eq, is_some, Bool-cases, string_eq_refl,
}
use audio_rtc_exp.Prelude.Lists.{length, keep}

abbrev pub Map {ℓ} : Type ℓ → Type ℓ
Map V = List (String × V)

module _ {ℓ} {V : Type ℓ} where
  -- `m[k]` with the comma-ok result
  unfoldable pub lookup : String → Map V → Option V
  lookup key [] = none
  lookup key ((name, x) ∷ rest) = if name == key then some x else lookup key rest

  -- `m[k] = v`
  unfoldable pub insert : String → V → Map V → Map V
  insert key x [] = (key, x) ∷ []
  insert key x ((name, y) ∷ rest) =
      if name == key then (key, x) ∷ rest else (name, y) ∷ insert key x rest

  -- `delete(m, k)`
  unfoldable pub delete : String → Map V → Map V
  delete k [] = []
  delete k ((j, w) ∷ m) = let rest = delete k m in if j == k then rest else (j, w) ∷ rest

  pub lookup-nil : (k : String) → lookup k [] ≡ none
  unfolding lookup
  lookup-nil k = refl

  pub lookup-insert :
      (key asked : String) (x : V) (rest : Map V)
      → lookup asked (insert key x rest) ≡ (if key == asked then some x else lookup asked rest)
  unfolding lookup insert
  lookup-insert key asked x [] = refl
  lookup-insert key asked x ((name, y) ∷ rest) =
      ground (
        arith,
        lookup-insert key asked x rest,
        eq_iff name asked,
        eq_iff name key,
        eq_iff key asked,
      )

  pub lookup-delete :
      (k j : String) (m : Map V) → lookup j (delete k m) ≡ (if k == j then none else lookup j m)
  unfolding lookup delete
  lookup-delete k j [] = ground arith
  lookup-delete k j ((i, w) ∷ m) =
      ground (arith, eq_iff k j, eq_iff i k, eq_iff i j, lookup-delete k j m)

  -- A new key adds one entry, a known key none.
  pub length-insert :
      (k : String) (v : V) (m : Map V)
      → length (insert k v m) ≡ (if is_some (lookup k m) then length m else suc (length m))
  unfolding lookup insert
  length-insert k v [] = refl
  length-insert k v ((i, w) ∷ m) = ground (arith, length-insert k v m)

  pub length-delete-le : (k : String) (m : Map V) → length (delete k m) ≤ length m
  unfolding delete
  length-delete-le k [] = omega arith
  length-delete-le k ((i, w) ∷ m) = ground (arith, length-delete-le k m)

  -- A map with an entry is not empty, and an empty map has none.
  pub lookup_empty : (k : String) (m : Map V) → length m ≡ 0 → lookup k m ≡ none
  unfolding lookup
  lookup_empty k [] h = refl
  lookup_empty k (e ∷ m) h = ground arith

  pub insert-ne-nil : (k : String) (v : V) (m : Map V) → 1 ≤ length (insert k v m)
  unfolding insert
  insert-ne-nil k v [] = omega arith
  insert-ne-nil k v ((i, w) ∷ m) = ground arith

  -- Each key stands once, as in a Go map.
  abbrev pub IsMap : Map V → Type ℓ
  IsMap [] = Unit
  IsMap ((k, v) ∷ m) = (lookup k m ≡ none) × IsMap m

  pub insert-IsMap : (k : String) (v : V) (m : Map V) → IsMap m → IsMap (insert k v m)
  unfolding lookup insert
  insert-IsMap k v [] h = (refl, tt)
  insert-IsMap k v ((i, w) ∷ m) h =
      ground (arith, eq_iff i k, eq_iff k i, insert-IsMap k v m h.1, lookup-insert k i v m)

  pub delete-IsMap : (k : String) (m : Map V) → IsMap m → IsMap (delete k m)
  unfolding lookup delete
  delete-IsMap k [] h = tt
  delete-IsMap k ((i, w) ∷ m) h =
      ground (arith, eq_iff i k, eq_iff k i, delete-IsMap k m h.1, lookup-delete k i m)

  delete_absent : (k : String) (m : Map V) → lookup k m ≡ none → delete k m ≡ m
  unfolding lookup delete
  delete_absent k [] h = refl
  delete_absent k ((i, w) ∷ m) h = ground (arith, delete_absent k m)

  pub length-delete :
      (k : String) (m : Map V)
      → IsMap m
      → (if is_some (lookup k m) then suc (length (delete k m)) else length (delete k m)) ≡ length m
  unfolding lookup delete
  length-delete k [] h = refl
  length-delete k ((i, w) ∷ m) h =
      ground (arith, eq_iff i k, length-delete k m h.1, delete_absent k m)

  -- Keeping the keys that pass a test.
  pub lookup-keep :
      (p : String → Bool) (k : String) (m : Map V)
      → lookup k (keep (λ e. p e.0) m) ≡ (if p k then lookup k m else none)
  unfolding lookup keep
  lookup-keep p k [] = ground arith
  lookup-keep p k ((i, w) ∷ m) = elim (Bool-cases (i == k)) [
    | inl t ↦
        let same : i ≡ k = (eq_iff i k).0 t in
        elim (Bool-cases (p k)) [
          | inl f ↦ rw same (rw (keep, f, lookup, string_eq_refl k) refl)
          | inr f ↦ rw same (rw (keep, f) (lookup-keep p k m ∙ rw f refl))
        ]
    | inr t ↦ elim (Bool-cases (p i)) [
      | inl f ↦ rw (keep, f, lookup, t) (lookup-keep p k m)
      | inr f ↦ rw (keep, f, lookup, t) (lookup-keep p k m)
    ]
  ]

  pub keep-IsMap : (p : String → Bool) (m : Map V) → IsMap m → IsMap (keep (λ e. p e.0) m)
  unfolding keep
  keep-IsMap p [] h = tt
  keep-IsMap p ((i, w) ∷ m) h = elim (Bool-cases (p i)) [
    | inl f ↦ rw (keep, f) (lookup-keep p i m ∙ rw f h.0, keep-IsMap p m h.1)
    | inr f ↦ rw (keep, f) (keep-IsMap p m h.1)
  ]
