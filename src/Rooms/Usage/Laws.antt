-- ===== src/Rooms/Usage/Laws.antt =====
-- The count of a module is the number of rooms that are assigned to it.
use audio_rtc_exp.Prelude.{
  ℕ, suc, ◌+◌, ◌-◌, ◌≡◌, refl, inl, inr, String, [], ◌∷◌, Option, none, some, arith, eq_iff, Map,
  lookup, insert, delete, IsMap, insert-IsMap, delete-IsMap, lookup-insert, lookup-delete, ◌==◌,
  string_eq, if◌then◌else◌, true, false, Bool-cases, ◌∙◌, ap, string_eq_refl,
}
use audio_rtc_exp.Rooms.Usage.{ModuleUsage, new_module_usage, count, assigned, release, assign, set}

-- How many rooms of an assignment have the module.
unfoldable pub tally : String → Map String → ℕ
tally id [] = 0
tally id ((r, a) ∷ m) = let rest = tally id m in if a == id then suc rest else rest

-- 1 if the entry names the module.
abbrev share : String → Option String → ℕ
share id none = 0
share id (some a) = if a == id then 1 else 0

tally-insert :
    (id k v : String) (m : Map String)
    → IsMap m
    → tally id (insert k v m) + share id (lookup k m) ≡ tally id m + share id (some v)
unfolding tally insert lookup
tally-insert id k v [] h = ground arith
tally-insert id k v ((r, a) ∷ m) h = ground (arith, eq_iff r k, tally-insert id k v m h.1)

pub tally-delete :
    (id k : String) (m : Map String)
    → IsMap m
    → tally id (delete k m) + share id (lookup k m) ≡ tally id m
unfolding tally delete lookup
tally-delete id k [] h = ground arith
tally-delete id k ((r, a) ∷ m) h =
    ground (arith, eq_iff r k, eq_iff k r, h.0, tally-delete id k m h.1)

pub record IsValid (m : ModuleUsage) : Type 0 where
  pub once : IsMap m.assigns
  pub named : (r : String) → (lookup r m.assigns ≡ some "") → ⊥
  pub counted : (id : String) → count id m ≡ tally id m.assigns

pub new-IsValid : IsValid new_module_usage
unfolding lookup count tally
new-IsValid = record { once = tt; named = λ r e. cc; counted = λ id. refl }

module _ (r : String) (m : ModuleUsage) (v : IsValid m) where
  release-IsValid : (old : String) → lookup r m.assigns ≡ some old → IsValid (release r old m)
  unfolding release
  release-IsValid old e = record {
    once = delete-IsMap r m.assigns v.once;
    named = λ k f. ground (arith, lookup-delete r k m.assigns, v.named k);
    counted = λ id. ground (
      arith,
      e,
      eq_iff old id,
      lookup-delete old id m.counts,
      lookup-insert old id (count old m - 1) m.counts,
      tally-delete id r m.assigns v.once,
      v.counted id,
      v.counted old,
    );
  }

  assign-IsValid :
      (new : String) → lookup r m.assigns ≡ none → (new == "") ≡ false → IsValid (assign r new m)
  unfolding assign
  assign-IsValid new e n = record {
    once = insert-IsMap r new m.assigns v.once;
    named = λ k f. ground (arith, eq_iff new "", lookup-insert r k new m.assigns, v.named k);
    counted = λ id. ground (
      arith,
      e,
      eq_iff new id,
      lookup-insert new id (count new m + 1) m.counts,
      tally-insert id r new m.assigns v.once,
      v.counted id,
    );
  }

release-out : (r old : String) (m : ModuleUsage) → lookup r (release r old m).assigns ≡ none
unfolding release
release-out r old m = lookup-delete r r m.assigns ∙ rw (string_eq_refl r) refl

pub assigned-release :
    (r k old : String) (m : ModuleUsage)
    → assigned k (release r old m) ≡ (if r == k then "" else assigned k m)
unfolding assigned release
assigned-release r k old m = ground (arith, lookup-delete r k m.assigns)

pub assigned-assign :
    (r k new : String) (m : ModuleUsage)
    → assigned k (assign r new m) ≡ (if r == k then new else assigned k m)
unfolding assigned assign
assigned-assign r k new m = ground (arith, lookup-insert r k new m.assigns)

-- After `set` the room has the new module, and every other room the one that it had.
pub assigned-set :
    (r k new : String) (m : ModuleUsage)
    → assigned k (set r new m) ≡ (if r == k then new else assigned k m)
unfolding set
assigned-set r k new m = elim (Bool-cases (assigned r m == new)) [
  | inl same ↦ rw same ground (arith, eq_iff r k, eq_iff (assigned r m) new)
  | inr moved ↦ elim (Bool-cases (assigned r m == "")) [
    | inl out ↦
        rw (moved, out) ground
          (arith, eq_iff r k, eq_iff (assigned r m) "", eq_iff new "", assigned-assign r k new m)
    | inr was ↦
        rw (moved, was) ground
          (
            arith,
            eq_iff r k,
            eq_iff new "",
            assigned-release r k (assigned r m) m,
            assigned-assign r k new (release r (assigned r m) m),
          )
  ]
]

abbrev pub or_empty : Option String → String
or_empty none = ""
or_empty (some id) = id

entry_cases :
    (o : Option String)
    → (o ≡ some "" → ⊥)
    → ((or_empty o == "") ≡ true → o ≡ none) × ((or_empty o == "") ≡ false → o ≡ some (or_empty o))
entry_cases none h = ground arith
entry_cases (some a) h = (λ f. absurd (h (ap some ((eq_iff a "").0 f))), λ f. refl)

named_entry :
    (r : String) (m : ModuleUsage)
    → IsValid m
    → ((assigned r m == "") ≡ true → lookup r m.assigns ≡ none)
      × ((assigned r m == "") ≡ false → lookup r m.assigns ≡ some (assigned r m))
unfolding assigned
named_entry r m v = entry_cases (lookup r m.assigns) (v.named r)

enter-IsValid :
    (r new : String) (m : ModuleUsage)
    → IsValid m
    → lookup r m.assigns ≡ none
    → IsValid (if new == "" then m else assign r new m)
enter-IsValid r new m v out = elim (Bool-cases (new == "")) [
  | inl gone ↦ rw gone v
  | inr here ↦ rw here (assign-IsValid r m v new out here)
]

-- Every `set` keeps the counts equal to the numbers of rooms.
pub set-IsValid : (r new : String) (m : ModuleUsage) → IsValid m → IsValid (set r new m)
unfolding set
set-IsValid r new m v = elim (Bool-cases (assigned r m == new)) [
  | inl same ↦ rw same v
  | inr moved ↦ elim (Bool-cases (assigned r m == "")) [
    | inl out ↦ rw (moved, out) (enter-IsValid r new m v ((named_entry r m v).0 out))
    | inr was ↦
        let left = release-IsValid r m v (assigned r m) ((named_entry r m v).1 was) in
        rw (moved, was)
          (enter-IsValid r new (release r (assigned r m) m) left (release-out r (assigned r m) m))
  ]
]
