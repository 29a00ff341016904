-- ===== src/Prelude/Split.antt =====
-- Go's strings.Split at one character, and strings.HasPrefix with strings.TrimPrefix.
use Prim.Native.Char.{Char, code}
use Prim.Native.String.{String, ◌++◌}
use mathlib.Core.Path.{◌≡◌, refl, sym, ap, ◌∙◌}
use mathlib.Core.Logic.{◌≢◌, inl, inr}
use mathlib.Core.Option.{Option, none, some}
use mathlib.Core.List.{List, [], ◌∷◌, cons-ne-nil}
use native.Mathlib.Omega.{arith}
use text.Mathlib.TextEquality.{Char-path}
use text.Mathlib.TextLemmas.{nil-append, cons-append}
use audio_rtc_exp.Prelude.Tests.{◌==◌, nat_eq, if◌then◌else◌, Bool-cases}

-- A character in front of the first part.
unfoldable pub extend : Char → List String → List String
extend c [] = String.◌∷◌ c String.[] ∷ []
extend c (s ∷ ss) = String.◌∷◌ c s ∷ ss

-- strings.Split(s, sep)
unfoldable pub split : Char → String → List String
unfolding extend
split sep String.[] = String.[] ∷ []
split sep (String.◌∷◌ c s) =
    let rest = split sep s in if code c == code sep then String.[] ∷ rest else extend c rest

-- No character of the text is the separator.
abbrev pub Without : Char → String → Type 0
Without sep String.[] = Unit {0}
Without sep (String.◌∷◌ c s) = (code c ≢ code sep) × Without sep s

pub split_one : (sep : Char) (a : String) → Without sep a → split sep a ≡ a ∷ []
unfolding split
split_one sep String.[] h = refl
split_one sep (String.◌∷◌ c s) h = ground (arith, split_one sep s h.1)

pub split_part :
    (sep : Char) (a b : String)
    → Without sep a
    → split sep (a ++ String.◌∷◌ sep b) ≡ a ∷ split sep b
unfolding split
split_part sep String.[] b h = rw (nil-append (String.◌∷◌ sep b)) (ground arith)
split_part sep (String.◌∷◌ c s) b h =
    rw (cons-append c s (String.◌∷◌ sep b)) (ground (arith, split_part sep s b h.1))

-- strings.Join
unfoldable pub join : Char → List String → String
join sep [] = String.[]
join sep (a ∷ []) = a
join sep (a ∷ b ∷ rest) = a ++ String.◌∷◌ sep (join sep (b ∷ rest))

abbrev pub EachWithout : Char → List String → Type 0
EachWithout sep [] = Unit {0}
EachWithout sep (a ∷ more) = Without sep a × EachWithout sep more

join-extend :
    (sep c : Char) (a : String) (more : List String)
    → join sep (extend c (a ∷ more)) ≡ String.◌∷◌ c (join sep (a ∷ more))
unfolding extend join
join-extend sep c a [] = refl
join-extend sep c a (b ∷ more) = cons-append c a (String.◌∷◌ sep (join sep (b ∷ more)))

-- What the split of a text is: parts without the separator, which joined give the text.
pub record IsSplit (sep : Char) (s : String) (parts : List String) : Type 0 where
  pub whole : join sep parts ≡ s
  pub each : EachWithout sep parts
  pub filled : parts ≢ []

cut_here :
    (sep c : Char) (s : String) (parts : List String)
    → c ≡ sep
    → IsSplit sep s parts
    → IsSplit sep (String.◌∷◌ c s) (String.[] ∷ parts)
unfolding join
cut_here sep c s [] e h = absurd (h.filled refl)
cut_here sep c s (a ∷ more) e h = record {
  whole =
      nil-append _
      ∙ (ap (λ d. String.◌∷◌ d (join sep (a ∷ more))) (sym e) ∙ ap (String.◌∷◌ c) h.whole);
  each = (tt, h.each);
  filled = λ f. cons-ne-nil _ _ f;
}

cut_later :
    (sep c : Char) (s : String) (parts : List String)
    → code c ≢ code sep
    → IsSplit sep s parts
    → IsSplit sep (String.◌∷◌ c s) (extend c parts)
unfolding extend
cut_later sep c s [] e h = absurd (h.filled refl)
cut_later sep c s (a ∷ more) e h = record {
  whole = join-extend sep c a more ∙ ap (String.◌∷◌ c) h.whole;
  each = ((e, h.each.0), h.each.1);
  filled = λ f. cons-ne-nil _ _ f;
}

pub split-IsSplit : (sep : Char) (s : String) → IsSplit sep s (split sep s)
unfolding split join
split-IsSplit sep String.[] = record {
  whole = refl;
  each = (tt, tt);
  filled = λ f. cons-ne-nil _ _ f;
}
split-IsSplit sep (String.◌∷◌ c s) = elim (Bool-cases (code c == code sep)) [
  | inl same ↦
      rw same
        (cut_here sep c s (split sep s) (Char-path c sep (ground arith)) (split-IsSplit sep s))
  | inr other ↦ rw other (cut_later sep c s (split sep s) (ground arith) (split-IsSplit sep s))
]

-- strings.HasPrefix and strings.TrimPrefix: the rest behind the prefix
unfoldable pub trim_prefix : String → String → Option String
trim_prefix String.[] s = some s
trim_prefix (String.◌∷◌ c p) String.[] = none
trim_prefix (String.◌∷◌ c p) (String.◌∷◌ d s) =
    let rest = trim_prefix p s in if code c == code d then rest else none

pub trim_prefix-append : (p s : String) → trim_prefix p (p ++ s) ≡ some s
unfolding trim_prefix
trim_prefix-append String.[] s = rw (nil-append s) refl
trim_prefix-append (String.◌∷◌ c p) s =
    rw (cons-append c p s) (ground (arith, trim_prefix-append p s))

pub append-trim_prefix : (p s r : String) → trim_prefix p s ≡ some r → s ≡ p ++ r
unfolding trim_prefix
append-trim_prefix String.[] s r e = rw (nil-append r) (ground arith)
append-trim_prefix (String.◌∷◌ c p) String.[] r e = ground arith
append-trim_prefix (String.◌∷◌ c p) (String.◌∷◌ d s) r e = elim (Bool-cases (code c == code d)) [
  | inl same ↦
      let f : trim_prefix p s ≡ some r = ground arith in
      ap (λ x. String.◌∷◌ x s) (sym (Char-path c d (ground arith)))
      ∙ (ap (String.◌∷◌ c) (append-trim_prefix p s r f) ∙ sym (cons-append c p r))
  | inr other ↦ absurd (ground arith)
]
