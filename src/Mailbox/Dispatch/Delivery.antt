-- ===== src/Mailbox/Dispatch/Delivery.antt =====
-- What a sender is promised by the answer to a deposit.
use skattr.Base.{
  ℕ, ◌+◌, ◌-◌, ◌^◌, ◌≤◌, ◌≡◌, sym, ap, subst, ◌∙◌, inl, inr, Bytes, length, min, arith, Has,
}
use skattr.Mailbox.Protocol.{Deposit, DepositOk}
use skattr.Mailbox.Failure.{Result, ok, err, policy, too_large, Result-cases}
use skattr.Mailbox.Store.{Row, insert}
use skattr.Mailbox.Store.Insert.{insert_ok}
use skattr.Mailbox.Policy.{Policy, resolve_ttl}
use skattr.Mailbox.Codec.{MailboxFrame, deposit_ok}
use skattr.Mailbox.Dispatch.{
  State, lift, check_version, take_deposit, take_global, store_row, within, handle_deposit,
}
use skattr.Mailbox.Dispatch.Steps.{bind_elim}
use skattr.Mailbox.Dispatch.Invariant.{Inv, IsSane, take_deposit-Keeps, take_global-Keeps}

store_row_inv :
    (p : Policy) (r : Row) (now : ℕ) (s s' : State)
    → store_row p r now s ≡ (s', ok tt)
    → insert s.deposits r p.recipient_cap_bytes p.global_storage_cap_bytes p.max_recipients now
      ≡ ok s'.deposits
unfolding store_row
store_row_inv p r now s s' e =
    elim (Result-cases
      (insert s.deposits r p.recipient_cap_bytes p.global_storage_cap_bytes p.max_recipients now)) [
        | inl (t, k) ↦
            let same : (record s { deposits = t }) ≡ s' = ap (λ x. x.0) (rw (k, store_row) at e) in
            k ∙ ap (λ x. ok x.deposits) same
        | inr (y, k) ↦
            absurd
              (let h : ◌≡◌ {A = State × _} (s, err y) (s', ok tt) = rw (k, store_row) at e in cc)
      ]

store_row-Has :
    (p : Policy) (r : Row) (now : ℕ) (s s' : State)
    → IsSane p
    → Inv p s
    → length r.ciphertext ≤ p.max_deposit_size
    → store_row p r now s ≡ (s', ok tt)
    → Has r s'.deposits
store_row-Has p r now s s' sane i small e =
    let (u, total, few) = i.stored in
    (insert_ok s.deposits s'.deposits r p.recipient_cap_bytes p.global_storage_cap_bytes
      p.max_recipients now u (omega (arith, sane, small, total)) few
      (store_row_inv p r now s s' e)).0

abbrev id_of : Bytes → Result MailboxFrame → Bytes
id_of d (ok (deposit_ok a)) = a.deposit_id
id_of d _ = d

abbrev expiry_of : Result MailboxFrame → ℕ
expiry_of (ok (deposit_ok a)) = a.expires_at
expiry_of _ = 0

-- The row that a deposit becomes.
abbrev pub deposited : Deposit → Bytes → (now expires_at : ℕ) → Row
deposited b id now expires_at = record {
  deposit_id = id;
  recipient_hash = b.recipient_hash;
  ciphertext = b.ciphertext;
  deposited_at = now;
  expires_at = expires_at;
}

-- A deposit that is answered is stored, under the id and with the expiry in the answer, with its
-- ciphertext and its time of receipt.
pub deposit_stored :
    (p : Policy) (b : Deposit) (id : Bytes) (now now_us : ℕ) (s s' : State) (answer : DepositOk)
    → IsSane p
    → Inv p s
    → handle_deposit p b id now now_us s ≡ (s', ok (deposit_ok answer))
    → (answer.deposit_id ≡ id) × Has (deposited b id now answer.expires_at) s'.deposits
unfolding handle_deposit
deposit_stored p b id now now_us s s' answer sane i e =
    bind_elim (lift (check_version b.version)) _ s e (λ s₁ _ h₁ e₁.
      bind_elim (lift (within (length b.ciphertext) p.max_deposit_size (policy too_large))) _ s₁ e₁
        (λ s₂ _ h₂ e₂. bind_elim (take_deposit now_us) _ s₂ e₂ (λ s₃ _ h₃ e₃.
          bind_elim (take_global now_us) _ s₃ e₃ (λ s₄ _ h₄ e₄.
            bind_elim (lift (resolve_ttl p b.ttl_request)) _ s₄ e₄ (λ s₅ ttl h₅ e₅.
              let r : Row = record {
                deposit_id = id;
                recipient_hash = b.recipient_hash;
                ciphertext = b.ciphertext;
                deposited_at = now;
                expires_at = min (now + ttl) (2 ^ 63 - 1);
              } in
              bind_elim (store_row p r now) _ s₅ e₅ (λ s₆ _ h₆ e₆.
                let i₂ : Inv p s₂ = subst (Inv p) (ap (λ x. x.0) h₁ ∙ ap (λ x. x.0) h₂) i in
                let i₃ : Inv p s₃ =
                  subst (Inv p) (ap (λ x. x.0) h₃) (take_deposit-Keeps p now_us s₂ i₂) in
                let i₄ : Inv p s₄ =
                  subst (Inv p) (ap (λ x. x.0) h₄) (take_global-Keeps p now_us s₃ i₃) in
                let i₅ : Inv p s₅ = subst (Inv p) (ap (λ x. x.0) h₅) i₄ in
                let small : length b.ciphertext ≤ p.max_deposit_size = ground (arith, h₂) in
                let there : Has r s'.deposits =
                  subst (λ x. Has r x.deposits) (ap (λ x. x.0) e₆)
                    (store_row-Has p r now s₅ s₆ sane i₅ small h₆) in
                let answered : r.deposit_id ≡ answer.deposit_id = ap (λ x. id_of id x.1) e₆ in
                let until : r.expires_at ≡ answer.expires_at = ap (λ x. expiry_of x.1) e₆ in
                (
                  sym answered,
                  subst (λ t. Has (deposited b id now t) s'.deposits) until there,
                )))))))
