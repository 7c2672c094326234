-- ===== src/Mailbox/Store/Refusal.antt =====
-- When `Store::insert` refuses.
use skattr.Base.{
  ℕ, ◌+◌, ◌≤◌, ◌<◌, ◌≡◌, ◌≢◌, refl, sym, ap, ◌⊎◌, inl, inr, Bool, true, false, not, [], ◌∷◌, ◌++◌,
  Bytes, length, arith, Bool-cases, if◌then◌else◌, ◌^◌, select, Has, subst, Has-select_inv,
}
use skattr.Mailbox.Failure.{
  ok, err, MailboxError, policy, storage, sqlite, recipient_full, recipient_limit, server_full,
}
use skattr.Mailbox.Store.{
  Row, Table, sum_bytes, is_for, is_id, is_expired, fit_count, append_row, insert,
  distinct_recipients,
}
use skattr.Mailbox.Store.Rows.{Unique, Unique-select, sum_bytes-select-select, sum_bytes-select-le}
use skattr.Mailbox.Store.Recipients.{distinct_recipients-select-le}
use skattr.Mailbox.Store.Caps.{live_bytes_for, fit_recipient_cases, fit_global_cases}
use skattr.Mailbox.Store.Insert.{fit_recipient-keeps}

Has-of_count :
    (p : Row → Bool) (t : Table) → length (select p t) ≢ 0 → (x : Row) × (Has x t × (p x ≡ true))
unfolding select
Has-of_count p [] h = absurd (h refl)
Has-of_count p (x ∷ t) h = elim (Bool-cases (p x)) [
  | inl e ↦ (x, (inl refl, e))
  | inr e ↦ let (y, (m, k)) = Has-of_count p t (λ z. h (rw (e, if◌then◌else◌) z)) in (y, (inr m, k))
]

none_of_count :
    (p : Row → Bool) (x : Row) (t : Table) → length (select p t) ≡ 0 → Has x t → p x ≡ false
unfolding select
none_of_count p x [] e m = absurd m
none_of_count p x (y ∷ t) e (inl k) = ground (arith, ap p k)
none_of_count p x (y ∷ t) e (inr m) = ground (arith, none_of_count p x t)

-- What may make `insert` refuse, each with its error.
abbrev pub Refusal :
    Table → Row → (recipient_cap global_cap max_recipients now : ℕ) → MailboxError → Type 0
Refusal t r recipient_cap global_cap max_recipients now e =
    ((e ≡ policy recipient_full)
      × (recipient_cap < live_bytes_for r.recipient_hash now t + length r.ciphertext))
    ⊎ (((e ≡ policy recipient_limit)
          × (max_recipients ≤ distinct_recipients t)
          × ((x : Row) → Has x t → is_expired now x ≡ false → is_for r.recipient_hash x ≡ false))
        ⊎ (((e ≡ policy server_full)
              × (global_cap
                  < sum_bytes (select (λ x. not (is_expired now x)) t) + length r.ciphertext))
            ⊎ ((e ≡ storage sqlite) × ((x : Row) × (Has x t × (is_id r.deposit_id x ≡ true))))))

fit_count_cases :
    (t : Table) (h : Bytes) (max_recipients : ℕ)
    → (fit_count t h max_recipients ≡ ok tt)
      ⊎ ((fit_count t h max_recipients ≡ err (policy recipient_limit))
          × (max_recipients ≤ distinct_recipients t)
          × (length (select (is_for h) t) ≡ 0))
unfolding fit_count
fit_count_cases t h max_recipients = ground arith

append_row_cases :
    (r : Row) (t : Table)
    → (append_row r t ≡ ok (t ++ (r ∷ [])))
      ⊎ ((append_row r t ≡ err (storage sqlite)) × (length (select (is_id r.deposit_id) t) ≢ 0))
unfolding append_row
append_row_cases r t = ground arith

-- `insert` refuses for no other reason: a cap that the rows which have not expired, with the new
-- one, would break; a recipient without such rows, when there are `max_recipients` or more; or a
-- second row with the id.
pub insert-Refusal :
    (t : Table) (r : Row) (recipient_cap global_cap max_recipients now : ℕ) (e : MailboxError)
    → Unique t
    → sum_bytes t + length r.ciphertext < 2 ^ 63
    → insert t r recipient_cap global_cap max_recipients now ≡ err e
    → Refusal t r recipient_cap global_cap max_recipients now e
unfolding insert
insert-Refusal t r recipient_cap global_cap max_recipients now e u small k =
    let h = r.recipient_hash in
    let n : ℕ = length r.ciphertext in
    elim (fit_recipient_cases t h n recipient_cap now u small) [
      | inr (e₁, full) ↦ inl (cc, full)
      | inl (t₁, p, e₁, s₁, _) ↦ elim (fit_count_cases t₁ h max_recipients) [
        | inr (e₂, many, none_left) ↦ inr (
            inl (
              cc,
              more_before t₁ p s₁ many,
              λ x m live.
                  none_of_count (is_for h) x t₁ none_left
                    (fit_recipient-keeps t t₁ h n recipient_cap now x e₁ u m live),
            ))
        | inl e₂ ↦
            elim (fit_global_cases t₁ n global_cap now (subst Unique (sym s₁) (Unique-select p t u))
              (rw s₁ (omega (arith, sum_bytes-select-le p t)))) [
                | inr (e₃, full) ↦ inr (inr (inl (cc, fewer_live t₁ p s₁ full)))
                | inl (t₂, q, e₃, s₂, _) ↦ elim (append_row_cases r t₂) [
                  | inl e₄ ↦ absurd (cc)
                  | inr (e₄, taken) ↦
                      let (x, (m, i)) = Has-of_count (is_id r.deposit_id) t₂ taken in
                      inr (inr (inr (cc, (x, (of_t t₁ t₂ p q s₁ s₂ x m, i)))))
                ]
              ]
      ]
    ]
  where
    more_before :
        (t₁ : Table) (p : Row → Bool)
        → t₁ ≡ select p t
        → max_recipients ≤ distinct_recipients t₁
        → max_recipients ≤ distinct_recipients t
    more_before t₁ p s₁ many =
        omega (arith, many, ap distinct_recipients s₁, distinct_recipients-select-le p t)

    fewer_live :
        (t₁ : Table) (p : Row → Bool)
        → t₁ ≡ select p t
        → global_cap < sum_bytes (select (λ x. not (is_expired now x)) t₁) + length r.ciphertext
        → global_cap < sum_bytes (select (λ x. not (is_expired now x)) t) + length r.ciphertext
    fewer_live t₁ p s₁ full = omega (
      arith,
      full,
      ap (λ (s : Table). sum_bytes (select (λ x. not (is_expired now x)) s)) s₁,
      sum_bytes-select-select (λ x. not (is_expired now x)) p t,
    )

    of_t :
        (t₁ t₂ : Table) (p q : Row → Bool)
        → t₁ ≡ select p t
        → t₂ ≡ select q t₁
        → (x : Row) → Has x t₂
        → Has x t
    of_t t₁ t₂ p q s₁ s₂ x m =
        (Has-select_inv p x t (subst (Has x) s₁ (Has-select_inv q x t₁ (subst (Has x) s₂ m)).1)).1
