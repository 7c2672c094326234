-- ===== src/Mailbox/Policy/Bounds.antt =====
-- Time to live and rate limits stay in their bounds.
use skattr.Base.{ℕ, ◌+◌, ◌-◌, ◌*◌, ◌≤◌, ◌<◌, ◌≡◌, ◌≢◌, ◌⊎◌, List, [], ◌∷◌, arith}
use skattr.Mailbox.Failure.{ok, err, policy, ttl_too_short, ttl_too_long}
use skattr.Mailbox.Policy.{
  Policy, resolve_ttl, TokenBucket, token, new, refilled, try_acquire, acquire_all, granted_one,
}

-- A request of 0 gets the default; any other is granted as it is exactly when it lies between the
-- operator's bounds, and is refused by the bound that it breaks.
pub resolve_ttl_cases :
    (p : Policy) (ttl_request : ℕ)
    → ((ttl_request ≡ 0) × (resolve_ttl p ttl_request ≡ ok p.default_ttl_secs))
      ⊎ (((ttl_request ≢ 0)
            × (p.min_ttl_secs ≤ ttl_request)
            × (ttl_request ≤ p.max_ttl_secs)
            × (resolve_ttl p ttl_request ≡ ok ttl_request))
          ⊎ (((ttl_request ≢ 0)
                × (ttl_request < p.min_ttl_secs)
                × (resolve_ttl p ttl_request ≡ err (policy ttl_too_short)))
              ⊎ ((p.min_ttl_secs ≤ ttl_request)
                  × (p.max_ttl_secs < ttl_request)
                  × (resolve_ttl p ttl_request ≡ err (policy ttl_too_long)))))
unfolding resolve_ttl
resolve_ttl_cases p ttl_request = ground arith

abbrev pub IsBounded : TokenBucket → Type 0
IsBounded b = b.available ≤ b.capacity * token

pub new-IsBounded : (tokens_per_min now : ℕ) → IsBounded (new tokens_per_min now)
unfolding new
new-IsBounded tokens_per_min now = omega arith

pub try_acquire-IsBounded : (b : TokenBucket) (now : ℕ) → IsBounded (try_acquire b now).0
unfolding try_acquire refilled
try_acquire-IsBounded b now = ground arith

pub try_acquire-capacity : (b : TokenBucket) (now : ℕ) → (try_acquire b now).0.capacity ≡ b.capacity
unfolding try_acquire
try_acquire-capacity b now = ground arith

-- The times do not go back, from `start` on.
abbrev pub Rising : ℕ → List ℕ → Type 0
Rising start [] = Unit {0}
Rising start (t ∷ ts) = (start ≤ t) × Rising t ts

abbrev pub last_of : ℕ → List ℕ → ℕ
last_of start [] = start
last_of start (t ∷ ts) = last_of t ts

elapsed_mul : (last now c : ℕ) → last ≤ now → (now - last) * c + last * c ≡ now * c
elapsed_mul last now c h = grind arith

-- One request pays for itself out of what was there and what has been added since.
try_acquire_pays :
    (b : TokenBucket) (now : ℕ)
    → b.last_refill ≤ now
    → granted_one (try_acquire b now).1 * token
        + (try_acquire b now).0.available
        + b.last_refill * b.capacity
      ≤ b.available + now * b.capacity
unfolding try_acquire refilled
try_acquire_pays b now le = ground (arith, elapsed_mul b.last_refill now b.capacity le)

try_acquire-last_refill : (b : TokenBucket) (now : ℕ) → (try_acquire b now).0.last_refill ≡ now
unfolding try_acquire
try_acquire-last_refill b now = ground arith

acquire_all_bound :
    (b : TokenBucket) (times : List ℕ)
    → Rising b.last_refill times
    → (acquire_all b times).1 * token + b.last_refill * b.capacity
      ≤ b.available + last_of b.last_refill times * b.capacity
unfolding acquire_all
acquire_all_bound b [] r = omega arith
acquire_all_bound b (now ∷ times) (le, r) =
    let b' = (try_acquire b now).0 in
    let later = try_acquire-last_refill b now in
    let cap = try_acquire-capacity b now in
    let rest : (acquire_all b' times).1 * token + now * b.capacity
        ≤ b'.available + last_of now times * b.capacity =
      rw (later, cap) at (acquire_all_bound b' times (rw later r)) in
    omega (arith, rest, try_acquire_pays b now le)

-- On a clock that does not go back, a bucket that starts full grants `tokens_per_min` requests and,
-- for the time up to the last of them, `tokens_per_min` a minute more at most.
pub rate_limit :
    (tokens_per_min start : ℕ) (times : List ℕ)
    → Rising start times
    → (acquire_all (new tokens_per_min start) times).1 * token + start * tokens_per_min
      ≤ tokens_per_min * token + last_of start times * tokens_per_min
unfolding new
rate_limit tokens_per_min start times r = acquire_all_bound (new tokens_per_min start) times r
