-- ===== src/Users/Redis/Pack.antt =====
-- packStatus and unpackStatus: the text `seconds,status,gen` of a status in Redis.
use Prim.Native.Char.{Char}
use Prim.Native.String.{◌++◌}
use text.Mathlib.TextLemmas.{nil-append, cons-append}
use audio_rtc_exp.Prelude.{
  ℕ, ◌*◌, ◌/◌, ◌-◌, ◌^◌, ◌<◌, ◌≡◌, String, List, [], ◌∷◌, Option, none, some, arith, ℤ, ap, ◌∙◌,
  nat_eq,
}
use audio_rtc_exp.Prelude.{split, Without, split_one, split_part}
use audio_rtc_exp.Users.{User, second}
use audio_rtc_exp.Users.Redis.{Strconv, unix, from_unix, pack_status}

abbrev pub comma : Char
comma = ","

-- unpackStatus of the parts: none stands for the error.
unfoldable pub unpack_parts : Strconv → List String → Option (ℕ × String × ℤ)
unfolding from_unix
unpack_parts conv (t ∷ s ∷ g ∷ []) = elim (conv.parse_int 64 t) [
  | none ↦ none
  | some ts ↦ elim (conv.parse_int 32 g) [ none ↦ none | some gen ↦ some (from_unix ts, s, gen) ]
]
unpack_parts conv _ = none

unfoldable pub unpack_status : Strconv → String → Option (ℕ × String × ℤ)
unfolding split unpack_parts
unpack_status conv value = unpack_parts conv (split comma value)

split-comma : (a b : String) → Without comma a → split comma (a ++ ("," ++ b)) ≡ a ∷ split comma b
split-comma a b h =
    ap (λ t. split comma (a ++ t))
      (cons-append comma String.[] b ∙ ap (String.◌∷◌ comma) (nil-append b))
    ∙ split_part comma a b h

-- The integers of a width in bits.
abbrev pub InRange : ℕ → ℤ → Type 0
InRange w (ℤ.pos n) = n < 2 ^ (w - 1)
InRange w (ℤ.negsuc n) = n < 2 ^ (w - 1)

-- What strconv promises: a number in range is read back from its digits, which hold no comma.
pub record IsDecimal (conv : Strconv) : Type 0 where
  pub parse-format : (w : ℕ) (z : ℤ) → InRange w z → conv.parse_int w (conv.format_int z) ≡ some z
  pub digits : (z : ℤ) → Without comma (conv.format_int z)

from_unix-unix : (ts : ℕ) → from_unix (unix ts) ≡ ts / second * second
unfolding from_unix unix
from_unix-unix ts = ground arith

-- A status that is written and read back keeps its text, its generation and its time up to the
-- second, if the text holds no comma, the time fits 64 bits of seconds and the generation 32 bits.
pub unpack_status-pack_status :
    (conv : Strconv) (u : User)
    → IsDecimal conv
    → Without comma u.status
    → InRange 64 (unix u.ts)
    → InRange 32 u.gen
    → unpack_status conv (pack_status conv u) ≡ some (u.ts / second * second, u.status, u.gen)
unfolding unpack_status pack_status
unpack_status-pack_status conv u d h t g = rw (
  split-comma (conv.format_int (unix u.ts)) _ (d.digits (unix u.ts)),
  split-comma u.status _ h,
  split_one comma (conv.format_int u.gen) (d.digits u.gen),
  unpack_parts,
  d.parse-format 64 (unix u.ts) t,
  d.parse-format 32 u.gen g,
  from_unix-unix u.ts,
)
