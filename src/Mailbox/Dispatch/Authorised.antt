-- ===== src/Mailbox/Dispatch/Authorised.antt =====
-- Who may read and delete.
use skattr.Base.{ℕ, ◌≡◌, refl, sym, ap, ◌∙◌, subst, Option, none, some, Bytes, length, map}
use skattr.Mailbox.Protocol.{Fetch, Delete}
use skattr.Mailbox.Failure.{ok, policy, too_many_delete_ids}
use skattr.Mailbox.Store.{Row, Table, insert}
use skattr.Mailbox.Store
use skattr.Mailbox.Auth.{op_byte_fetch, op_byte_delete, get, remove}
use skattr.Mailbox.Auth.Challenges.{Authentic, accepted, get-remove_self}
use skattr.Mailbox.Policy.{Policy}
use skattr.Mailbox.Codec.{MailboxFrame, fetch_response}
use skattr.Mailbox.Dispatch.{
  State, lift, check_version, take_fetch, within, Libraries, to_pending, payload_digest,
  check_signature, handle_fetch, handle_delete,
}
use skattr.Mailbox.Dispatch.Steps.{bind_elim}

module _ (libs : Libraries) where
  digest_inv :
      (o : Option Bytes) {digest : Bytes}
      → payload_digest libs o ≡ ok digest
      → (buf : Bytes) × (o ≡ some buf) × (libs.crypto.sha256 buf ≡ digest)
  digest_inv none e = cc
  digest_inv (some buf) e = (buf, refl, cc)

  -- What a request whose signed tuple is `o` has shown, and the state after the check.
  abbrev pub Signed :
      (o : Option Bytes) (nonce key signature : Bytes) (op now : ℕ) (s s' : State) → Type 0
  Signed o nonce key signature op now s s' =
      ((buf : Bytes) × (o ≡ some buf)
        × Authentic libs.crypto s.challenges nonce key signature op (libs.crypto.sha256 buf) now)
      × (get nonce s'.challenges ≡ none)

  signed :
      (o : Option Bytes) (nonce key signature : Bytes) (op : ℕ) (digest : Bytes) (now : ℕ)
      (s s₁ s₂ s' : State)
      → s₁.challenges ≡ s.challenges
      → lift (payload_digest libs o) s₁ ≡ (s₂, ok digest)
      → check_signature libs nonce key signature op digest now s₂ ≡ (s', ok tt)
      → Signed o nonce key signature op now s s' × (s'.deposits ≡ s₁.deposits)
  unfolding check_signature
  signed o nonce key signature op digest now s s₁ s₂ s' c d e =
      let (buf, t, h) = digest_inv o (ap (λ x. x.1) d) in
      let a =
        accepted libs.crypto s₂.challenges nonce key signature op digest now (ap (λ x. x.1) e) in
      let c₂ : s₂.challenges ≡ s.challenges = ap (λ x. x.0.challenges) (sym d) ∙ c in
      let emptied : remove nonce s₂.challenges ≡ s'.challenges =
        sym a.1 ∙ ap (λ x. x.0.challenges) e in
      (
        (
          (
            buf,
            t,
            subst (λ x. Authentic libs.crypto x nonce key signature op (libs.crypto.sha256 buf) now)
                c₂
                (subst (λ x. Authentic libs.crypto s₂.challenges nonce key signature op x now)
                  (sym h) a.0),
          ),
          subst (λ x. get nonce x ≡ none) emptied (get-remove_self nonce s₂.challenges),
        ),
        sym (ap (λ x. x.0.deposits) e) ∙ sym (ap (λ x. x.0.deposits) d),
      )

  -- A fetch is answered only if its signature is authentic and its nonce was issued to the hash of
  -- the key that signed. The nonce is used up then, the stored deposits stay, and the answer has
  -- just the deposits that are stored for that hash.
  pub fetch_authorised :
      (b : Fetch) (now now_us : ℕ) (s s' : State) (f : MailboxFrame)
      → handle_fetch libs b now now_us s ≡ (s', ok f)
      → Signed
          (libs.fetch_tuple b.version b.identity_pubkey b.nonce)
          b.nonce
          b.identity_pubkey
          b.signature
          op_byte_fetch
          now
          s
          s'
        × (s'.deposits ≡ s.deposits)
        × (f
            ≡ fetch_response (record {
              deposits =
                  map to_pending
                    (Store.fetch s.deposits (libs.crypto.sha256 b.identity_pubkey) now);
            }))
  unfolding handle_fetch take_fetch
  fetch_authorised b now now_us s s' f e =
      bind_elim (lift (check_version b.version)) _ s e (λ s₁ _ h₁ e₁.
        bind_elim (take_fetch now_us) _ s₁ e₁ (λ s₂ _ h₂ e₂.
          bind_elim (lift (payload_digest libs _)) _ s₂ e₂ (λ s₃ digest h₃ e₃.
            bind_elim
              (check_signature libs b.nonce b.identity_pubkey b.signature op_byte_fetch digest now)
              _ s₃ e₃
              (λ s₄ _ h₄ e₄.
                let c : s₂.challenges ≡ s.challenges =
                  ap (λ x. x.0.challenges) (sym h₂) ∙ ap (λ x. x.0.challenges) (sym h₁) in
                let d : s₂.deposits ≡ s.deposits =
                  ap (λ x. x.0.deposits) (sym h₂) ∙ ap (λ x. x.0.deposits) (sym h₁) in
                let (a, k) =
                  signed _ b.nonce b.identity_pubkey b.signature op_byte_fetch digest now s s₂ s₃ s₄
                    c h₃ h₄ in
                let last : s₄ ≡ s' = ap (λ x. x.0) e₄ in
                let answer : (fetch_response (record {
                  deposits =
                      map to_pending
                        (Store.fetch s₄.deposits (libs.crypto.sha256 b.identity_pubkey) now);
                }))
                    ≡ f =
                  cc in
                (
                  subst (Signed _ b.nonce b.identity_pubkey b.signature op_byte_fetch now s) last a,
                  ap (λ x. x.deposits) (sym last) ∙ (k ∙ d),
                  sym answer
                      ∙ ap
                          (λ t. fetch_response (record {
                            deposits =
                                map to_pending
                                  (Store.fetch t (libs.crypto.sha256 b.identity_pubkey) now);
                          }))
                          (k ∙ d),
                )))))

  -- A deletion is answered only if its signature is authentic and its nonce was issued to the hash
  -- of the key that signed. The nonce is used up then, and the table becomes that of the deletion
  -- among the deposits for that hash.
  pub delete_authorised :
      (p : Policy) (b : Delete) (now : ℕ) (s s' : State) (f : MailboxFrame)
      → handle_delete libs p b now s ≡ (s', ok f)
      → Signed
          (libs.delete_tuple b.version b.identity_pubkey b.nonce b.deposit_ids)
          b.nonce
          b.identity_pubkey
          b.signature
          op_byte_delete
          now
          s
          s'
        × (s'.deposits
            ≡ (Store.delete s.deposits (libs.crypto.sha256 b.identity_pubkey) b.deposit_ids).0)
  unfolding handle_delete
  delete_authorised p b now s s' f e =
      bind_elim (lift (check_version b.version)) _ s e (λ s₁ _ h₁ e₁.
        bind_elim
          (lift (within (length b.deposit_ids) p.max_delete_ids (policy too_many_delete_ids))) _ s₁
          e₁
          (λ s₂ _ h₂ e₂. bind_elim (lift (payload_digest libs _)) _ s₂ e₂ (λ s₃ digest h₃ e₃.
            bind_elim
              (check_signature libs b.nonce b.identity_pubkey b.signature op_byte_delete digest now)
              _ s₃ e₃
              (λ s₄ _ h₄ e₄.
                let same : s₂ ≡ s = ap (λ x. x.0) (sym h₂) ∙ ap (λ x. x.0) (sym h₁) in
                let (a, k) =
                  signed _ b.nonce b.identity_pubkey b.signature op_byte_delete digest now s s₂ s₃
                    s₄ (ap (λ x. x.challenges) same) h₃ h₄ in
                (
                  (a.0, subst (λ x. get b.nonce x ≡ none) (ap (λ x. x.0.challenges) e₄) a.1),
                  sym (ap (λ x. x.0.deposits) e₄)
                      ∙ ap
                          (λ x.
                            (Store.delete x (libs.crypto.sha256 b.identity_pubkey) b.deposit_ids).0)
                          (k ∙ ap (λ x. x.deposits) same),
                )))))
