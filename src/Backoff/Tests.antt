-- ===== src/Backoff/Tests.antt =====
-- The backoff at concrete attempts.
use skattr.Base.{◌*◌, ◌^◌, ◌≤◌, ◌<◌, ◌≡◌, ◌⊎◌, refl, arith}
use skattr.Backoff.{backoff}
use skattr.Backoff.Delay.{backoff_bounds}

backoff_third : backoff 3 1000000 ≡ 8000
unfolding backoff
backoff_third = refl

-- Every bit of 1000 is shifted out of the u128.
no_delay : backoff 125 1000000 ≡ 0
unfolding backoff
no_delay = refl

backoff_bounds_example :
    ((3 < 9) × (2 ^ 3 * 750 ≤ backoff 3 800000) × (backoff 3 800000 ≤ 2 ^ 3 * 1250))
    ⊎ (((9 ≤ 3)
          × ((3 < 125) ⊎ (128 ≤ 3))
          × (225000 ≤ backoff 3 800000)
          × (backoff 3 800000 ≤ 375000))
        ⊎ ((125 ≤ 3) × (3 < 128) × (backoff 3 800000 ≡ 0)))
backoff_bounds_example = backoff_bounds 3 800000 (omega arith) (omega arith)
