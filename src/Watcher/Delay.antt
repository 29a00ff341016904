-- ===== src/Watcher/Delay.antt =====
-- nextDelay: the delay before a change is tried again, on 64-bit integers.
use native.Mathlib.Nat.{pow-le-pow_right}
use native.Mathlib.Omega.{pow_step}
use audio_rtc_exp.Prelude.{
  ℕ, zero, suc, ◌+◌, ◌*◌, ◌^◌, ◌%◌, ◌-◌, ℤ, ltb, if◌then◌else◌, ◌≤◌, ◌≡◌, refl, arith, ap, ◌∙◌,
}

abbrev pub millisecond : ℕ
millisecond = 1000000

abbrev pub max_delay : ℕ
max_delay = 10 * (1000 * millisecond)

-- The value of a 64-bit word as an int64.
unfoldable pub signed : ℕ → ℤ
signed n = if ltb n (2 ^ 63) then ℤ.pos n else ℤ.negsuc (2 ^ 64 - 1 - n)

-- `100*(1<<attempt)` milliseconds, wrapped at each step, at most 10 seconds.
unfoldable pub next_delay : ℕ → ℤ
unfolding signed
next_delay attempt =
    let shifted = (if ltb attempt 64 then 2 ^ attempt else 0) in
    let base_delay = signed (100 * shifted % 2 ^ 64 * millisecond % 2 ^ 64) in
    elim base_delay [
      | ℤ.pos n ↦ if ltb max_delay n then ℤ.pos max_delay else ℤ.pos n
      | ℤ.negsuc n ↦ ℤ.negsuc n
    ]

-- Up to attempt 36 the delay is 100 ms doubled at each attempt, at most 10 seconds.
pub next_delay_backoff :
    (attempt : ℕ)
    → attempt ≤ 36
    → next_delay attempt ≡ (
        if ltb max_delay (100 * 2 ^ attempt * millisecond)
        then ℤ.pos max_delay
        else ℤ.pos (100 * 2 ^ attempt * millisecond))
unfolding next_delay signed
next_delay_backoff attempt h =
    let le : 2 ^ attempt ≤ 68719476736 =
      pow-le-pow_right {n = 2} (omega arith) {i = attempt} {j = 36} h in
    ground (arith, le)

pow_56 : (n : ℕ) → 2 ^ (n + 56) ≡ 2 ^ n * 72057594037927936
pow_56 zero = refl
pow_56 (suc n) =
    ap (◌^◌ 2) (omega arith)
    ∙ (pow_step 2 (n + 56) ∙ (ap (◌*◌ 2) (pow_56 n) ∙ rw (pow_step 2 n) (omega arith)))

-- From attempt 56 on the product is 0 in 64 bits: a change that failed so often is tried
-- again at once.
pub next_delay_collapses : (attempt : ℕ) → 56 ≤ attempt → next_delay attempt ≡ ℤ.pos 0
unfolding next_delay signed
next_delay_collapses attempt h =
    let e : 2 ^ attempt ≡ 2 ^ (attempt - 56) * 72057594037927936 =
      ap (◌^◌ 2) (omega arith) ∙ pow_56 (attempt - 56) in
    ground (arith, e)
