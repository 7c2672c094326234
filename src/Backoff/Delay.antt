-- ===== src/Backoff/Delay.antt =====
-- The delays that the backoff gives.
use skattr.Base.{
  ℕ, zero, suc, ◌*◌, ◌/◌, ◌^◌, ◌≤◌, ◌<◌, ◌≡◌, refl, ◌⊎◌, inl, inr, Bool, true, ◌&&◌, ltb, ◌==◌,
  if◌then◌else◌, Bool-cases, arith,
}
use skattr.Backoff.{base_ms, cap_ms, checked_shl, capped_ms, million, backoff}

-- A test of the numbers below a bound.
abbrev all_below : (ℕ → Bool) → ℕ → Bool
all_below p zero = true
all_below p (suc n) = p n && all_below p n

all_below-lt : (p : ℕ → Bool) (n k : ℕ) → all_below p n ≡ true → k < n → p k ≡ true
all_below-lt p zero k t lt = absurd (omega arith)
all_below-lt p (suc n) k t lt = elim (Bool-cases (k == n)) [
  | inl e ↦ let same_number : k ≡ n = ground (arith, e) in rw same_number (ground (arith, t))
  | inr d ↦ all_below-lt p n k (ground (arith, t)) (ground (arith, d))
]

-- The delay doubles up to the cap. A shift that drops every bit gives none.
abbrev expected_ms : ℕ → ℕ
expected_ms n = if ltb n 9 then base_ms * 2 ^ n else if ltb n 125 then cap_ms else 0

table : all_below (λ n. capped_ms n == expected_ms n) 128 ≡ true
unfolding capped_ms
table = refl

capped_ms_shifted : (attempts : ℕ) → attempts < 128 → capped_ms attempts ≡ expected_ms attempts
capped_ms_shifted attempts lt =
    let t = all_below-lt (λ n. capped_ms n == expected_ms n) 128 attempts table lt in
    ground (arith, t)

capped_ms_large : (attempts : ℕ) → 128 ≤ attempts → capped_ms attempts ≡ cap_ms
unfolding capped_ms checked_shl
capped_ms_large attempts le = ground (arith, le)

jitter :
    (k factor : ℕ)
    → 750000 ≤ factor
    → factor ≤ 1250000
    → (k * 750 ≤ base_ms * k * factor / million) × (base_ms * k * factor / million ≤ k * 1250)
jitter k factor low high =
    let least : k * 750000 ≤ k * factor = grind arith in
    let most : k * factor ≤ k * 1250000 = grind arith in
    let same_product : base_ms * k * factor ≡ base_ms * (k * factor) = grind arith in
    rw same_product (omega (arith, least, most), omega (arith, least, most))

-- With a factor between 0.75 and 1.25, the delay lies within a quarter of a second doubled
-- `attempts` times, and after nine attempts within a quarter of five minutes. At 125, 126 and 127
-- attempts every bit is shifted out, and there is no delay.
pub backoff_bounds :
    (attempts factor : ℕ)
    → 750000 ≤ factor
    → factor ≤ 1250000
    → ((attempts < 9)
        × (2 ^ attempts * 750 ≤ backoff attempts factor)
        × (backoff attempts factor ≤ 2 ^ attempts * 1250))
      ⊎ (((9 ≤ attempts)
            × ((attempts < 125) ⊎ (128 ≤ attempts))
            × (225000 ≤ backoff attempts factor)
            × (backoff attempts factor ≤ 375000))
          ⊎ ((125 ≤ attempts) × (attempts < 128) × (backoff attempts factor ≡ 0)))
unfolding backoff
backoff_bounds attempts factor low high = elim (Bool-cases (ltb attempts 128)) [
  | inl t ↦
      let shifted = capped_ms_shifted attempts (ground (arith, t)) in
      ground (arith, shifted, jitter (2 ^ attempts) factor low high, jitter 300 factor low high)
  | inr f ↦
      let large = capped_ms_large attempts (ground (arith, f)) in
      ground (arith, f, large, jitter 300 factor low high)
]
