-- ===== src/Mailbox/Dispatch/Errors.antt =====
-- What a refused request leaves behind.
use skattr.Base.{◌⊎◌, inl, inr, ℕ, ◌≡◌, refl, ◌∙◌, Bytes, length, arith}
use skattr.Mailbox.Protocol.{Deposit, Fetch, Delete}
use skattr.Mailbox.Failure.{
  Result-cases, Result, ok, err, MailboxError, policy, too_large, too_many_delete_ids,
}
use skattr.Mailbox.Store.{Row}
use skattr.Mailbox.Auth.{op_byte_fetch, op_byte_delete}
use skattr.Mailbox.Policy.{Policy, resolve_ttl}
use skattr.Mailbox.Codec.{MailboxFrame}
use skattr.Mailbox.Dispatch.{
  State, Handler, after, ◌>>=◌, lift, check_version, take_deposit, take_fetch, take_global,
  store_row, within, handle_deposit, Libraries, payload_digest, check_signature, handle_fetch,
  handle_delete,
}

-- The handler leaves the deposits alone; or does so whenever it fails.
abbrev pub Same : {A : Type 0} → Handler A → Type 0
Same m = (s : State) → (m s).0.deposits ≡ s.deposits

abbrev pub SameOnError : {A : Type 0} → Handler A → Type 0
SameOnError m = (s : State) (e : MailboxError) → (m s).1 ≡ err e → (m s).0.deposits ≡ s.deposits

bind-SameOnError :
    {A B : Type 0} (m : Handler A) (f : A → Handler B)
    → Same m
    → ((a : A) → SameOnError (f a))
    → SameOnError (m >>= f)
bind-SameOnError {A} m f keep rest s e = go (m s) (keep s)
  where
    go :
        (x : State × Result A)
        → x.0.deposits ≡ s.deposits
        → (after x f).1 ≡ err e
        → (after x f).0.deposits ≡ s.deposits
    go (s₁, ok a) k h = rest a s₁ e h ∙ k
    go (s₁, err y) k h = k

take_deposit-Same : (now : ℕ) → Same (take_deposit now)
unfolding take_deposit
take_deposit-Same now s = refl

take_fetch-Same : (now : ℕ) → Same (take_fetch now)
unfolding take_fetch
take_fetch-Same now s = refl

take_global-Same : (now : ℕ) → Same (take_global now)
unfolding take_global
take_global-Same now s = refl

store_row-SameOnError : (p : Policy) (r : Row) (now : ℕ) → SameOnError (store_row p r now)
unfolding store_row
store_row-SameOnError p r now s e h = ground arith

answer-SameOnError :
    {A B : Type 0} (m : Handler A) (g : A → B)
    → SameOnError m
    → SameOnError (m >>= λ a. lift (ok (g a)))
answer-SameOnError {A} {B} m g keep s e = go (m s) (keep s e)
  where
    go :
        (x : State × Result A)
        → (x.1 ≡ err e → x.0.deposits ≡ s.deposits)
        → (after x (λ a. lift (ok (g a)))).1 ≡ err e
        → (after x (λ a. lift (ok (g a)))).0.deposits ≡ s.deposits
    go (s₁, ok a) k h = cc
    go (s₁, err y) k h = k cc

deposit-SameOnError :
    (p : Policy) (b : Deposit) (id : Bytes) (now now_us : ℕ)
    → SameOnError (handle_deposit p b id now now_us)
unfolding handle_deposit
deposit-SameOnError p b id now now_us =
    bind-SameOnError (lift (check_version b.version)) _ (λ s. refl)
      (λ _.
        bind-SameOnError (lift (within (length b.ciphertext) p.max_deposit_size (policy too_large)))
          _ (λ s. refl)
          (λ _. bind-SameOnError (take_deposit now_us) _ (take_deposit-Same now_us) (λ _.
            bind-SameOnError (take_global now_us) _ (take_global-Same now_us) (λ _.
              bind-SameOnError (lift (resolve_ttl p b.ttl_request)) _ (λ s. refl)
                (λ ttl.
                  answer-SameOnError (store_row p _ now) _ (store_row-SameOnError p _ now))))))

module _ (libs : Libraries) where
  check_signature-Same :
      (nonce key signature : Bytes) (op : ℕ) (digest : Bytes) (now : ℕ)
      → Same (check_signature libs nonce key signature op digest now)
  unfolding check_signature
  check_signature-Same nonce key signature op digest now s = refl

  pub fetch-SameOnError :
      (b : Fetch) (now now_us : ℕ) → SameOnError (handle_fetch libs b now now_us)
  unfolding handle_fetch
  fetch-SameOnError b now now_us =
      bind-SameOnError (lift (check_version b.version)) _ (λ s. refl)
        (λ _. bind-SameOnError (take_fetch now_us) _ (take_fetch-Same now_us) (λ _.
          bind-SameOnError
            (lift (payload_digest libs (libs.fetch_tuple b.version b.identity_pubkey b.nonce))) _
            (λ s. refl)
            (λ digest.
              bind-SameOnError
                (check_signature libs b.nonce b.identity_pubkey b.signature op_byte_fetch digest
                  now)
                _
                (check_signature-Same b.nonce b.identity_pubkey b.signature op_byte_fetch digest
                  now)
                (λ _ s e h. cc))))

  pub delete-SameOnError :
      (p : Policy) (b : Delete) (now : ℕ) → SameOnError (handle_delete libs p b now)
  unfolding handle_delete
  delete-SameOnError p b now =
      bind-SameOnError (lift (check_version b.version)) _ (λ s. refl)
        (λ _.
          bind-SameOnError
            (lift (within (length b.deposit_ids) p.max_delete_ids (policy too_many_delete_ids))) _
            (λ s. refl)
            (λ _.
              bind-SameOnError
                (lift (
                  payload_digest libs
                    (libs.delete_tuple b.version b.identity_pubkey b.nonce b.deposit_ids)))
                _ (λ s. refl)
                (λ digest.
                  bind-SameOnError
                    (check_signature libs b.nonce b.identity_pubkey b.signature op_byte_delete
                      digest now)
                    _
                    (check_signature-Same b.nonce b.identity_pubkey b.signature op_byte_delete
                      digest now)
                    (λ _ s e h. cc))))

  -- The handler has answered, or has left the deposits alone.
  abbrev pub AnswersOrKeeps : Handler MailboxFrame → State → Type 0
  AnswersOrKeeps m s = ((f : MailboxFrame) × ((m s).1 ≡ ok f)) ⊎ ((m s).0.deposits ≡ s.deposits)

  pub answers_or_keeps : (m : Handler MailboxFrame) (s : State) → SameOnError m → AnswersOrKeeps m s
  answers_or_keeps m s keep = elim (Result-cases (m s).1) [
    | inl a ↦ inl a
    | inr (e, k) ↦ inr (keep s e k)
  ]

  -- A deposit, a fetch or a deletion that is not answered as asked, but with an error, leaves the
  -- stored deposits as they were.
  pub error_keeps_deposits :
      (p : Policy) (b : Deposit) (id : Bytes) (f : Fetch) (d : Delete) (now now_us : ℕ) (s : State)
      → AnswersOrKeeps (handle_deposit p b id now now_us) s
        × AnswersOrKeeps (handle_fetch libs f now now_us) s
        × AnswersOrKeeps (handle_delete libs p d now) s
  error_keeps_deposits p b id f d now now_us s = (
    answers_or_keeps (handle_deposit p b id now now_us) s (deposit-SameOnError p b id now now_us),
    answers_or_keeps (handle_fetch libs f now now_us) s (fetch-SameOnError f now now_us),
    answers_or_keeps (handle_delete libs p d now) s (delete-SameOnError p d now),
  )
