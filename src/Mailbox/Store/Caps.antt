-- ===== src/Mailbox/Store/Caps.antt =====
-- `insert`: its caps, what its evictions may take, and when it refuses.
use skattr.Base.{
  ℕ, ◌+◌, ◌-◌, ◌%◌, ◌≤◌, ◌<◌, ◌≡◌, refl, sym, ap, ◌∙◌, ◌⊎◌, inl, inr, Bool, true, not, ◌&&◌, Bytes,
  arith, Bool-cases, if◌then◌else◌, ltb, ◌^◌, select,
}
use skattr.Mailbox.Failure.{Result, ok, err, MailboxError, policy, recipient_full, server_full}
use skattr.Mailbox.Store.{
  Row, Table, sum_bytes, add_u64, is_for, is_expired, evict_expired_for, evict_expired_global,
  fit_recipient, fit_global,
}
use skattr.Mailbox.Store.Rows.{Unique, sum_bytes-select-select, sum_bytes-select-le, select-all}
use skattr.Mailbox.Store.Evict.{evict_where, evict_where-select, evict_where_frees}

-- The rows of `h` that may be deleted to make room, and the others.
abbrev pub is_stale : Bytes → ℕ → Row → Bool
is_stale h now r = is_for h r && is_expired now r

abbrev pub live_bytes_for : Bytes → ℕ → Table → ℕ
live_bytes_for h now t = sum_bytes (select (λ r. is_for h r && not (is_stale h now r)) t)

pub evict_expired_for-where :
    (t : Table) (h : Bytes) (target now : ℕ)
    → evict_expired_for t h target now ≡ evict_where (is_stale h now) target t
unfolding evict_expired_for evict_where
evict_expired_for-where t h target now = refl

pub evict_expired_global-where :
    (t : Table) (target now : ℕ)
    → evict_expired_global t target now ≡ evict_where (is_expired now) target t
unfolding evict_expired_global evict_where
evict_expired_global-where t target now = refl

-- An eviction leaves no more bytes than there were, in any selection.
evict_where-le :
    (q w : Row → Bool) (target : ℕ) (t : Table)
    → sum_bytes (select q (evict_where w target t)) ≤ sum_bytes (select q t)
evict_where-le q w target t =
    let (p, e) = evict_where-select w target t in rw e (sum_bytes-select-select q p t)

sum_bytes-all : (t : Table) → sum_bytes (select (λ r. true) t) ≡ sum_bytes t
sum_bytes-all t = ap sum_bytes (select-all _ t (λ r h. refl))

-- The tests that both byte caps make: `a` bytes before the eviction, `b` after it, of which at least
-- `live` had to stay where it freed too little.
room_cases :
    (a b new_len cap live : ℕ) (t t' : Table) (e : MailboxError)
    → a + new_len < 2 ^ 63
    → b ≤ a
    → ((add_u64 a new_len - cap) + b ≤ a) ⊎ (b ≤ live)
    → let r : Result Table =
        if ltb cap (add_u64 a new_len)
        then (if ltb cap (add_u64 b new_len) then err e else ok t')
        else ok t in
      ((r ≡ ok t) × (a + new_len ≤ cap))
      ⊎ (((r ≡ ok t') × (b + new_len ≤ cap)) ⊎ ((r ≡ err e) × (cap < live + new_len)))
unfolding add_u64
room_cases a b new_len cap live t t' e small le freed =
    elim (Bool-cases (ltb cap ((a + new_len) % 2 ^ 64))) [
      | inr fits ↦ rw (fits, if◌then◌else◌) (inl (refl, ground (arith, fits)))
      | inl over ↦ elim (Bool-cases (ltb cap ((b + new_len) % 2 ^ 64))) [
        | inr fits ↦ rw (over, if◌then◌else◌, fits) (inr (inl (refl, ground (arith, fits))))
        | inl full ↦
            rw (over, if◌then◌else◌, full) (inr (inr (refl, ground (arith, over, full, freed))))
      ]
    ]

-- Room for `new_len` bytes is found in the recipient's cap, or its rows that cannot be evicted
-- already leave too little.
pub fit_recipient_cases :
    (t : Table) (h : Bytes) (new_len cap now : ℕ)
    → Unique t
    → sum_bytes t + new_len < 2 ^ 63
    → ((t' : Table) × (p : Row → Bool) × (fit_recipient t h new_len cap now ≡ ok t')
        × (t' ≡ select p t)
        × (sum_bytes (select (is_for h) t') + new_len ≤ cap))
      ⊎ ((fit_recipient t h new_len cap now ≡ err (policy recipient_full))
          × (cap < live_bytes_for h now t + new_len))
unfolding fit_recipient
fit_recipient_cases t h new_len cap now u small =
    let a : ℕ = sum_bytes (select (is_for h) t) in
    let goal : ℕ = add_u64 a new_len - cap in
    let where_ : evict_expired_for t h goal now ≡ evict_where (is_stale h now) goal t =
      evict_expired_for-where t h goal now in
    let (p, e) = evict_where-select (is_stale h now) goal t in
    elim (room_cases a (sum_bytes (select (is_for h) (evict_expired_for t h goal now))) new_len cap
      (live_bytes_for h now t) t (evict_expired_for t h goal now) (policy recipient_full)
      (omega (arith, sum_bytes-select-le (is_for h) t))
      (rw where_ (evict_where-le (is_for h) (is_stale h now) goal t))
      (rw where_ (evict_where_frees (is_for h) (is_stale h now) goal t u (λ r k. ground arith)))) [
        | inl (r, fits) ↦ inl (t, (λ x. true), r, sym (select-all _ t (λ x m. refl)), fits)
        | inr (inl (r, fits)) ↦ inl (evict_expired_for t h goal now, p, r, where_ ∙ e, fits)
        | inr (inr (r, full)) ↦ inr (r, full)
      ]

-- The same for the bytes stored altogether.
pub fit_global_cases :
    (t : Table) (new_len cap now : ℕ)
    → Unique t
    → sum_bytes t + new_len < 2 ^ 63
    → ((t' : Table) × (p : Row → Bool) × (fit_global t new_len cap now ≡ ok t')
        × (t' ≡ select p t)
        × (sum_bytes t' + new_len ≤ cap))
      ⊎ ((fit_global t new_len cap now ≡ err (policy server_full))
          × (cap < sum_bytes (select (λ r. not (is_expired now r)) t) + new_len))
unfolding fit_global
fit_global_cases t new_len cap now u small =
    let goal : ℕ = add_u64 (sum_bytes t) new_len - cap in
    let t' : Table = evict_expired_global t goal now in
    let where_ : t' ≡ evict_where (is_expired now) goal t = evict_expired_global-where t goal now in
    let (p, e) = evict_where-select (is_expired now) goal t in
    let le = evict_where-le (λ r. true) (is_expired now) goal t in
    let freed = evict_where_frees (λ r. true) (is_expired now) goal t u (λ r k. refl) in
    let before = sum_bytes-all t in
    let after = sum_bytes-all (evict_where (is_expired now) goal t) in
    elim (room_cases (sum_bytes t) (sum_bytes t') new_len cap
      (sum_bytes (select (λ r. not (is_expired now r)) t)) t t' (policy server_full) small
      (rw where_ (omega (arith, before, after, le))) (rw where_ (rw (before, after) at freed))) [
        | inl (r, fits) ↦ inl (t, (λ x. true), r, sym (select-all _ t (λ x m. refl)), fits)
        | inr (inl (r, fits)) ↦ inl (t', p, r, where_ ∙ e, fits)
        | inr (inr (r, full)) ↦ inr (r, full)
      ]

-- The first halves, for a call that is known to succeed.
pub fit_recipient_ok :
    (t t' : Table) (h : Bytes) (new_len cap now : ℕ)
    → Unique t
    → sum_bytes t + new_len < 2 ^ 63
    → fit_recipient t h new_len cap now ≡ ok t'
    → (p : Row → Bool) × (t' ≡ select p t) × (sum_bytes (select (is_for h) t') + new_len ≤ cap)
fit_recipient_ok t t' h new_len cap now u small e =
    elim (fit_recipient_cases t h new_len cap now u small) [
      | inl (s, p, q, k, fits) ↦ (p, cc, ground (arith, fits))
      | inr (q, full) ↦ absurd (cc)
    ]

pub fit_global_ok :
    (t t' : Table) (new_len cap now : ℕ)
    → Unique t
    → sum_bytes t + new_len < 2 ^ 63
    → fit_global t new_len cap now ≡ ok t'
    → (p : Row → Bool) × (t' ≡ select p t) × (sum_bytes t' + new_len ≤ cap)
fit_global_ok t t' new_len cap now u small e = elim (fit_global_cases t new_len cap now u small) [
  | inl (s, p, q, k, fits) ↦ (p, cc, ground (arith, fits))
  | inr (q, full) ↦ absurd (cc)
]
