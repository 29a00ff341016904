-- ===== src/Watcher/Tests.antt =====
-- Keys and delays of the watcher at concrete values.
use audio_rtc_exp.Prelude.{◌≡◌, refl, none, ℤ, arith}
use audio_rtc_exp.Watcher.Keys.{parse_key}
use audio_rtc_exp.Watcher.Delay.{next_delay, next_delay_collapses}

-- A part too many is refused.
too_deep : parse_key "/rooms/" "/rooms/r1/meta/x" ≡ none
unfolding parse_key
too_deep = refl

next_delay_collapses_example : next_delay 60 ≡ ℤ.pos 0
next_delay_collapses_example = next_delay_collapses 60 (omega arith)

-- At attempt 37 the delay is negative.
overflows : next_delay 37 ≡ ℤ.negsuc 4702848726509551615
unfolding next_delay
overflows = refl
