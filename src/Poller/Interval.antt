-- ===== src/Poller/Interval.antt =====
-- How long an actor sleeps.
use Prim.Native.Nat.{◌^◌}
use skattr.Base.{◌+◌, ◌*◌, ◌/◌, ◌<◌, ◌≤◌, Bool, true, arith}
use skattr.Base.Int.{ℤ, pos_part, neg_part}
use skattr.Poller.{PollCadence, base_of, next_interval, default_cadence, nanos_per_sec}

-- Drawn within a quarter of the base, the jitter moves the interval by no more than that, and no
-- cast cuts it off. With the cadence of the program an actor whose mailbox is unreachable waits
-- from 225 to 375 seconds, whether it is active or not.
pub next_interval_bounds :
    (active is_unreachable : Bool) (c : PollCadence) (delta slow : ℤ)
    → base_of active is_unreachable c < 2 ^ 62
    → pos_part delta ≤ base_of active is_unreachable c / 4
    → neg_part delta ≤ base_of active is_unreachable c / 4
    → pos_part slow ≤ 75 * nanos_per_sec
    → neg_part slow ≤ 75 * nanos_per_sec
    → (base_of active is_unreachable c
        ≤ next_interval active is_unreachable c delta + base_of active is_unreachable c / 4)
      × (next_interval active is_unreachable c delta
          ≤ base_of active is_unreachable c + base_of active is_unreachable c / 4)
      × (225 * nanos_per_sec ≤ next_interval active true default_cadence slow)
      × (next_interval active true default_cadence slow ≤ 375 * nanos_per_sec)
unfolding next_interval
next_interval_bounds active is_unreachable c delta slow small up down up' down' =
    (omega arith, omega arith, unfold base_of in omega arith, unfold base_of in omega arith)
