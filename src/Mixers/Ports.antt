-- ===== src/Mixers/Ports.antt =====
-- backend/mixers/watcher/port.go: the choice of an RTP port. `draws` are the answers of rand.IntN of the
-- attempts, `free` says which UDP ports can be listened on.
use audio_rtc_exp.Prelude.{
  ℕ, ◌+◌, ◌-◌, ◌%◌, ◌≤◌, ◌≡◌, ◌⊎◌, inl, inr, List, [], ◌∷◌, Option, none, some, arith, leb, ◌==◌,
  nat_eq, if◌then◌else◌, Bool, true, false, not, All, Option-cases,
}

unfoldable pub even_below : ℕ → ℕ
even_below port = if not (port % 2 == 0) then port - 1 else port

unfoldable pub test_rtp_rtcp_ports : (ℕ → Bool) → ℕ → Bool
test_rtp_rtcp_ports free rtp_port =
    let rtcp_port = rtp_port + 1 in if not (free rtp_port) then false else free rtcp_port

-- The attempts in the configured range.
unfoldable pub in_range : (ℕ → Bool) → ℕ → ℕ → List ℕ → Option ℕ
unfolding even_below test_rtp_rtcp_ports
in_range free start end [] = none
in_range free start end (draw ∷ draws) =
    let port = even_below (start + draw) in
    let rest = in_range free start end draws in
    if leb end port then rest else if test_rtp_rtcp_ports free port then some port else rest

-- The attempts in the ephemeral range.
unfoldable pub in_ephemeral : (ℕ → Bool) → List ℕ → Option ℕ
unfolding even_below test_rtp_rtcp_ports
in_ephemeral free [] = none
in_ephemeral free (draw ∷ draws) =
    let port = even_below (49152 + draw) in
    let rest = in_ephemeral free draws in if test_rtp_rtcp_ports free port then some port else rest

-- Ten draws in the range, then twenty in the ephemeral one.
unfoldable pub get_free_rtp_port : (ℕ → Bool) → ℕ → ℕ → List ℕ → List ℕ → Option ℕ
unfolding in_range in_ephemeral
get_free_rtp_port free start end draws more = elim (in_range free start end draws) [
  | some port ↦ some port
  | none ↦ in_ephemeral free more
]

-- An even port that is free, as is the one behind it.
abbrev pub IsPair : (ℕ → Bool) → ℕ → Type 0
IsPair free p = (p % 2 ≡ 0) × (free p ≡ true) × (free (p + 1) ≡ true)

in_range-IsPair :
    (free : ℕ → Bool) (start end : ℕ) (draws : List ℕ) (p : ℕ)
    → in_range free start end draws ≡ some p
    → IsPair free p × (start ≤ p + start % 2) × (p + 1 ≤ end)
unfolding in_range even_below test_rtp_rtcp_ports
in_range-IsPair free start end [] p e = absurd (ground arith)
in_range-IsPair free start end (d ∷ draws) p e =
    ground (arith, in_range-IsPair free start end draws p)

in_ephemeral-IsPair :
    (free : ℕ → Bool) (draws : List ℕ) (p : ℕ)
    → All (λ d. d ≤ 16382) draws
    → in_ephemeral free draws ≡ some p
    → IsPair free p × (49152 ≤ p) × (p + 1 ≤ 65535)
unfolding in_ephemeral even_below test_rtp_rtcp_ports
in_ephemeral-IsPair free [] p h e = absurd (ground arith)
in_ephemeral-IsPair free (d ∷ draws) p h e = ground (arith, in_ephemeral-IsPair free draws p h.1)

-- A port that is found is even and free, as is the port behind it, and both are in the configured
-- range, but for a port one below an odd start, or in the ephemeral range.
pub get_free_rtp_port-IsPair :
    (free : ℕ → Bool) (start end : ℕ) (draws more : List ℕ) (p : ℕ)
    → All (λ d. d ≤ 16382) more
    → get_free_rtp_port free start end draws more ≡ some p
    → IsPair free p × (((start ≤ p + start % 2) × (p + 1 ≤ end)) ⊎ ((49152 ≤ p) × (p + 1 ≤ 65535)))
unfolding get_free_rtp_port
get_free_rtp_port-IsPair free start end draws more p h e =
    elim (Option-cases (in_range free start end draws)) [
      | inl f ↦
          let r = in_ephemeral-IsPair free more p h (ground (arith, f)) in (r.0, inr (r.1, r.2))
      | inr (q, f) ↦
          let r = in_range-IsPair free start end draws p (ground (arith, f)) in
          (r.0, inl (r.1, r.2))
    ]
