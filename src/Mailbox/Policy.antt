-- ===== src/Mailbox/Policy.antt =====
-- crates/mailbox/src/policy.rs: the operator's caps and the token buckets. There are no floats: a
-- time is a number of microseconds, and tokens are counted in sixty-millionths, so that one
-- microsecond at `tokens_per_min` adds `tokens_per_min` of them. The rounding of f64 is not modelled.
pub mod Bounds
use skattr.Base.{
  ℕ, suc, ◌+◌, ◌-◌, ◌*◌, Bool, true, false, List, [], ◌∷◌, leb, ltb, ◌==◌, if◌then◌else◌, min,
}
use skattr.Mailbox.Failure.{Result, ok, err, policy, ttl_too_short, ttl_too_long, rate_limited}

pub record Policy : Type 0 where
  pub max_deposit_size : ℕ
  pub min_ttl_secs : ℕ
  pub max_ttl_secs : ℕ
  pub default_ttl_secs : ℕ
  pub recipient_cap_bytes : ℕ
  pub per_conn_deposits_per_min : ℕ
  pub per_conn_fetches_per_min : ℕ
  pub global_deposits_per_min : ℕ
  pub global_storage_cap_bytes : ℕ
  pub max_recipients : ℕ
  pub idle_timeout_secs : ℕ
  pub max_connections : ℕ
  pub max_delete_ids : ℕ

abbrev pub recommended : Policy
recommended = record {
  max_deposit_size = 1_048_576;
  min_ttl_secs = 3_600;
  max_ttl_secs = 2_592_000;
  default_ttl_secs = 604_800;
  recipient_cap_bytes = 268_435_456;
  per_conn_deposits_per_min = 30;
  per_conn_fetches_per_min = 6;
  global_deposits_per_min = 1_000;
  global_storage_cap_bytes = 4 * 1024 * 1024 * 1024;
  max_recipients = 100_000;
  idle_timeout_secs = 120;
  max_connections = 512;
  max_delete_ids = 1_024;
}

unfoldable pub resolve_ttl : Policy → ℕ → Result ℕ
resolve_ttl p ttl_request =
    if ttl_request == 0
    then ok p.default_ttl_secs
    else if ltb ttl_request p.min_ttl_secs
    then err (policy ttl_too_short)
    else if ltb p.max_ttl_secs ttl_request
    then err (policy ttl_too_long)
    else ok ttl_request

-- One token.
abbrev pub token : ℕ
token = 60_000_000

-- `capacity` is the tokens per minute, which is also what a microsecond adds; `available` is in
-- sixty-millionths of a token, `last_refill` in microseconds.
pub record TokenBucket : Type 0 where
  pub capacity : ℕ
  pub available : ℕ
  pub last_refill : ℕ

unfoldable pub new : ℕ → ℕ → TokenBucket
new tokens_per_min now = record {
  capacity = tokens_per_min;
  available = tokens_per_min * token;
  last_refill = now;
}

-- A clock that went back adds nothing, and still sets `last_refill`.
unfoldable pub refilled : TokenBucket → ℕ → ℕ
refilled b now = min (b.available + (now - b.last_refill) * b.capacity) (b.capacity * token)

-- The bucket after the call, and its result.
unfoldable pub try_acquire : TokenBucket → ℕ → TokenBucket × Result (Unit {0})
try_acquire b now =
    let full = refilled b now in
    if leb token full
    then (record b { available = full - token; last_refill = now }, ok tt)
    else (record b { available = full; last_refill = now }, err (policy rate_limited))

pub record ConnRateLimiter : Type 0 where
  pub deposits : TokenBucket
  pub fetches : TokenBucket

unfoldable pub from_policy : Policy → ℕ → ConnRateLimiter
unfolding new
from_policy p now = record {
  deposits = new p.per_conn_deposits_per_min now;
  fetches = new p.per_conn_fetches_per_min now;
}

abbrev pub granted_one : Result (Unit {0}) → ℕ
granted_one (ok _) = 1
granted_one (err _) = 0

-- Requests at the given times: the bucket after them, and how many were granted.
unfoldable pub acquire_all : TokenBucket → List ℕ → TokenBucket × ℕ
acquire_all b [] = (b, 0)
acquire_all b (now ∷ times) =
    let (b', r) = try_acquire b now in
    let (b'', n) = acquire_all b' times in (b'', granted_one r + n)
