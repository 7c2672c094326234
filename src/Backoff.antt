-- ===== src/Backoff.antt =====
-- crates/core/src/delivery/backoff.rs: the delay before the next attempt. The random factor is an
-- argument, in millionths; the rounding of its product in an f64 is not modelled.
pub mod Delay
mod Tests
use skattr.Base.{ℕ, ◌+◌, ◌-◌, ◌*◌, ◌/◌, ◌%◌, ◌^◌, Option, none, some, min, ltb, if◌then◌else◌}

abbrev pub base_ms : ℕ
base_ms = 1000

abbrev pub cap_ms : ℕ
cap_ms = 300000

-- `u128::checked_shl`: it refuses a shift by the width or more, and drops the bits that overflow.
unfoldable pub checked_shl : ℕ → ℕ → Option ℕ
checked_shl n by = if ltb by 128 then some (n * 2 ^ by % 2 ^ 128) else none

abbrev pub unwrap_or : ℕ → Option ℕ → ℕ
unwrap_or d none = d
unwrap_or d (some n) = n

-- The delay before jitter; the minimum fits a u64.
unfoldable pub capped_ms : ℕ → ℕ
unfolding checked_shl
capped_ms attempts = min (unwrap_or (2 ^ 128 - 1) (checked_shl base_ms attempts)) cap_ms

abbrev pub million : ℕ
million = 1000000

unfoldable pub backoff : (attempts factor : ℕ) → ℕ
unfolding capped_ms
backoff attempts factor = capped_ms attempts * factor / million
