-- ===== src/Mailbox/Store/Insert.antt =====
-- `Store::insert` as a whole.
use skattr.Base.{
  ℕ, ◌+◌, ◌-◌, ◌≤◌, ◌<◌, ◌≡◌, ◌≢◌, refl, sym, ◌∙◌, ◌⊎◌, inl, inr, false, [], ◌∷◌, ◌++◌, Bytes,
  length, arith, Bool-cases, ltb, ◌^◌, same, same_refl, same_sym, All-append, select, Has,
  Has-append_left, Has-append_right, subst, select-append,
}
use skattr.Mailbox.Failure.{ok, bind-eq-ok}
use skattr.Mailbox.Store.{
  Row, Table, sum_bytes, add_u64, is_for, is_id, is_expired, evict_expired_for,
  evict_expired_global, fit_recipient, fit_count, fit_global, append_row, insert,
  distinct_recipients,
}
use skattr.Mailbox.Store.Rows.{
  Fresh, Unique, Unique-select, sum_bytes-select-select, sum_bytes-select-le, sum_bytes-append,
}
use skattr.Mailbox.Store.Recipients.{distinct_recipients-select-le, distinct_recipients-append_row}
use skattr.Mailbox.Store.Evict.{evict_where-keeps}
use skattr.Mailbox.Store.Caps.{
  is_stale, fit_recipient_ok, fit_global_ok, evict_expired_for-where, evict_expired_global-where,
}

-- The stages of a call that succeeds.
insert_inv :
    (t t' : Table) (r : Row) (recipient_cap global_cap max_recipients now : ℕ)
    → insert t r recipient_cap global_cap max_recipients now ≡ ok t'
    → (t₁ t₂ : Table) × (fit_recipient t r.recipient_hash (length r.ciphertext) recipient_cap now
        ≡ ok t₁)
      × (fit_count t₁ r.recipient_hash max_recipients ≡ ok tt)
      × (fit_global t₁ (length r.ciphertext) global_cap now ≡ ok t₂)
      × (append_row r t₂ ≡ ok t')
unfolding insert
insert_inv t t' r recipient_cap global_cap max_recipients now e =
    let h = r.recipient_hash in
    let n : ℕ = length r.ciphertext in
    let (t₁, e₁, k₁) = bind-eq-ok (fit_recipient t h n recipient_cap now) _ e in
    let (_, c₁, k₂) = bind-eq-ok (fit_count t₁ h max_recipients) _ k₁ in
    let (t₂, e₂, k₃) = bind-eq-ok (fit_global t₁ n global_cap now) _ k₂ in (t₁, t₂, e₁, c₁, e₂, k₃)

pub fit_recipient-keeps :
    (t t' : Table) (h : Bytes) (n cap now : ℕ) (x : Row)
    → fit_recipient t h n cap now ≡ ok t'
    → Unique t
    → Has x t
    → is_expired now x ≡ false
    → Has x t'
unfolding fit_recipient
fit_recipient-keeps t t' h n cap now x e u m live =
    let goal : ℕ = add_u64 (sum_bytes (select (is_for h) t)) n - cap in
    let stays : Has x (evict_expired_for t h goal now) =
      rw (evict_expired_for-where t h goal now)
        (evict_where-keeps (is_stale h now) goal t x u m (ground arith)) in
    elim (Bool-cases (ltb cap (add_u64 (sum_bytes (select (is_for h) t)) n))) [
      | inr fits ↦ subst (Has x) (ground arith) m
      | inl over ↦ subst (Has x) (ground arith) stays
    ]

fit_global-keeps :
    (t t' : Table) (n cap now : ℕ) (x : Row)
    → fit_global t n cap now ≡ ok t'
    → Unique t
    → Has x t
    → is_expired now x ≡ false
    → Has x t'
unfolding fit_global
fit_global-keeps t t' n cap now x e u m live =
    let goal : ℕ = add_u64 (sum_bytes t) n - cap in
    let stays : Has x (evict_expired_global t goal now) =
      rw (evict_expired_global-where t goal now)
        (evict_where-keeps (is_expired now) goal t x u m live) in
    elim (Bool-cases (ltb cap (add_u64 (sum_bytes t) n))) [
      | inr fits ↦ subst (Has x) (ground arith) m
      | inl over ↦ subst (Has x) (ground arith) stays
    ]

append_row_inv :
    (r : Row) (t t' : Table)
    → append_row r t ≡ ok t'
    → (t' ≡ t ++ (r ∷ [])) × (0 ≡ length (select (is_id r.deposit_id) t))
unfolding append_row
append_row_inv r t t' e = ground arith

Fresh-of_count : (id : Bytes) (t : Table) → 0 ≡ length (select (is_id id) t) → Fresh id t
unfolding select
Fresh-of_count id [] e = tt
Fresh-of_count id (x ∷ t) e = elim (Bool-cases (same x.deposit_id id)) [
  | inl s ↦ absurd (ground arith)
  | inr d ↦ (d, Fresh-of_count id t (ground arith))
]

Unique-append_row : (r : Row) (t : Table) → Fresh r.deposit_id t → Unique t → Unique (t ++ (r ∷ []))
Unique-append_row r [] f u = (tt, tt)
Unique-append_row r (x ∷ t) (fx, f) (g, u) = (
  All-append _ t (r ∷ []) g (same_sym r.deposit_id x.deposit_id ∙ fx, tt),
  Unique-append_row r t f u,
)

sum-append : (r : Row) (t : Table) → sum_bytes (t ++ (r ∷ [])) ≡ sum_bytes t + length r.ciphertext
unfolding sum_bytes
sum-append r t = omega (arith, sum_bytes-append t (r ∷ []))

sum_for-append :
    (r : Row) (t : Table)
    → sum_bytes (select (is_for r.recipient_hash) (t ++ (r ∷ [])))
      ≡ sum_bytes (select (is_for r.recipient_hash) t) + length r.ciphertext
unfolding sum_bytes select
sum_for-append r t =
    rw (select-append (is_for r.recipient_hash) t (r ∷ []), same_refl r.recipient_hash)
      (sum-append r (select (is_for r.recipient_hash) t))

fit_count_inv :
    (t : Table) (h : Bytes) (max_recipients : ℕ)
    → fit_count t h max_recipients ≡ ok tt
    → (length (select (is_for h) t) ≢ 0) ⊎ (distinct_recipients t < max_recipients)
unfolding fit_count
fit_count_inv t h max_recipients e = ground arith

-- In a table with unique ids, whose bytes and those of the new row stay together below 2^63, and
-- whose recipients are no more than `max_recipients`, a successful insertion has the new row,
-- loses no row that has not expired, and keeps the ids unique, the bytes of the recipient and all
-- bytes within their caps, and the recipients within `max_recipients`.
pub insert_ok :
    (t t' : Table) (r : Row) (recipient_cap global_cap max_recipients now : ℕ)
    → Unique t
    → sum_bytes t + length r.ciphertext < 2 ^ 63
    → distinct_recipients t ≤ max_recipients
    → insert t r recipient_cap global_cap max_recipients now ≡ ok t'
    → Has r t'
      × ((x : Row) → Has x t → is_expired now x ≡ false → Has x t')
      × Unique t'
      × (sum_bytes (select (is_for r.recipient_hash) t') ≤ recipient_cap)
      × (sum_bytes t' ≤ global_cap)
      × (distinct_recipients t' ≤ max_recipients)
insert_ok t t' r recipient_cap global_cap max_recipients now u small few e =
    let h = r.recipient_hash in
    let n : ℕ = length r.ciphertext in
    let (t₁, t₂, e₁, c₁, e₂, e₃) =
      insert_inv t t' r recipient_cap global_cap max_recipients now e in
    let (t'-eq, absent) = append_row_inv r t₂ t' e₃ in
    let (p, s₁, fits_recipient) = fit_recipient_ok t t₁ h n recipient_cap now u small e₁ in
    let u₁ : Unique t₁ = subst Unique (sym s₁) (Unique-select p t u) in
    let small₁ : sum_bytes t₁ + n < 2 ^ 63 = rw s₁ (omega (arith, sum_bytes-select-le p t)) in
    let (q, s₂, fits_global) = fit_global_ok t₁ t₂ n global_cap now u₁ small₁ e₂ in
    let u₂ : Unique t₂ = subst Unique (sym s₂) (Unique-select q t₁ u₁) in
    let fewer : sum_bytes (select (is_for h) t₂) ≤ sum_bytes (select (is_for h) t₁) =
      rw s₂ (sum_bytes-select-select (is_for h) q t₁) in
    rw t'-eq (
      Has-append_right r t₂ (r ∷ []) (inl refl),
      (λ x m live. Has-append_left x t₂ (r ∷ []) (
          fit_global-keeps t₁ t₂ n global_cap now x e₂ u₁
            (fit_recipient-keeps t t₁ h n recipient_cap now x e₁ u m live) live)),
      Unique-append_row r t₂ (Fresh-of_count r.deposit_id t₂ absent) u₂,
      rw (sum_for-append r t₂) (omega (arith, fewer, fits_recipient)),
      rw (sum-append r t₂) fits_global,
      rw s₂ (
          distinct_recipients-append_row q t₁ r max_recipients
            (rw s₁ (omega (arith, few, distinct_recipients-select-le p t)))
            (fit_count_inv t₁ h max_recipients c₁)),
    )
