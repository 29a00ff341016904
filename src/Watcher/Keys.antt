-- ===== src/Watcher/Keys.antt =====
-- parseKey: a key of etcd is the prefix, an id, a slash and a key type.
use Prim.Native.Char.{Char}
use Prim.Native.String.{◌++◌}
use mathlib.Core.Path.{subst}
use text.Mathlib.TextLemmas.{append_cancel_left}
use audio_rtc_exp.Prelude.{
  ◌≡◌, refl, sym, ap, ◌∙◌, inl, inr, String, List, [], ◌∷◌, Option, none, some, arith, Option-cases,
  split, Without, join, IsSplit, split-IsSplit, split_part, split_one, trim_prefix,
  trim_prefix-append, append-trim_prefix,
}

abbrev pub slash : Char
slash = "/"

-- len(parts) != 2
unfoldable pub two_parts : List String → Option (String × String)
two_parts (id ∷ key_type ∷ []) = some (id, key_type)
two_parts _ = none

unfoldable pub parse_key : String → String → Option (String × String)
unfolding two_parts split trim_prefix
parse_key prefix_to_watch key = elim (trim_prefix prefix_to_watch key) [
  | none ↦ none
  | some remaining ↦ two_parts (split slash remaining)
]

-- The key of a part of the state of an id.
unfoldable pub full_key : String → String → String → String
full_key prefix_to_watch id key_type = prefix_to_watch ++ (id ++ String.◌∷◌ slash key_type)

-- A key that is put together from an id and a key type without slashes is taken apart into the same
-- id and type.
pub parse_key-full_key :
    (p id key_type : String)
    → Without slash id
    → Without slash key_type
    → parse_key p (full_key p id key_type) ≡ some (id, key_type)
unfolding parse_key full_key
parse_key-full_key p id kt h k =
    rw
      (
        full_key,
        parse_key,
        trim_prefix-append p (id ++ String.◌∷◌ slash kt),
        split_part slash id kt h,
        split_one slash kt k,
        two_parts,
      )
      refl

-- What parseKey answers is what the key was put together from.
pub record IsKeyOf (p key id key_type : String) : Type 0 where
  pub is_full : key ≡ full_key p id key_type
  pub id_whole : Without slash id
  pub type_whole : Without slash key_type

two_parts-IsKeyOf :
    (p key r id kt : String) (parts : List String)
    → key ≡ p ++ r
    → IsSplit slash r parts
    → two_parts parts ≡ some (id, kt)
    → IsKeyOf p key id kt
unfolding two_parts join full_key
two_parts-IsKeyOf p key r id kt [] e h f = absurd (ground arith)
two_parts-IsKeyOf p key r id kt (a ∷ []) e h f = absurd (ground arith)
two_parts-IsKeyOf p key r id kt (a ∷ b ∷ c ∷ more) e h f = absurd (ground arith)
two_parts-IsKeyOf p key r id kt (a ∷ b ∷ []) e h f =
    let same : (a ≡ id) × (b ≡ kt) = ground arith in
    record {
      is_full = e ∙ (ap (◌++◌ p) (sym h.whole) ∙ rw (same.0, same.1) refl);
      id_whole = subst (Without slash) same.0 h.each.0;
      type_whole = subst (Without slash) same.1 h.each.1.0;
    }

-- If parseKey answers an id and a key type, the key is the prefix, the id, a slash and the type, and
-- neither the id nor the type holds a slash.
pub parse_key-IsKeyOf :
    (p key id key_type : String) → parse_key p key ≡ some (id, key_type) → IsKeyOf p key id key_type
unfolding parse_key
parse_key-IsKeyOf p key id kt e = elim (Option-cases (trim_prefix p key)) [
  | inl f ↦ absurd (ground (arith, rw (f, parse_key) at e))
  | inr (r, f) ↦
      two_parts-IsKeyOf p key r id kt (split slash r) (append-trim_prefix p key r f)
        (split-IsSplit slash r) (rw (f, parse_key) at e)
]

-- The keys of two types of one id differ.
pub full_key_type : (p id a b : String) → full_key p id a ≡ full_key p id b → a ≡ b
unfolding full_key
full_key_type p id a b e =
    let cut : String.◌∷◌ slash a ≡ String.◌∷◌ slash b =
      append_cancel_left id _ _ (append_cancel_left p _ _ e) in
    ground arith
