-- ===== src/Mailbox/Server/Answers.antt =====
-- The frame that is sent for each frame that is read.
use skattr.Base.{
  ℕ, ◌+◌, ◌<◌, ◌≡◌, refl, sym, subst, ◌⊎◌, inl, inr, Bool, true, false, Option, none, some, Bytes,
  length, ltb, if◌then◌else◌, Bool-cases, arith,
}
use skattr.Wire.{max_frame_size}
use skattr.Mailbox.Protocol.{
  Deposit, Challenge, Fetch, Delete, DepositOk, ChallengeNonce, FetchResponse, DeleteOk, ErrorBody,
}
use skattr.Mailbox.Failure.{
  Result, Result-cases, MailboxError, ok, err, policy, too_large, too_many_delete_ids,
}
use skattr.Mailbox.Policy.{Policy, resolve_ttl}
use skattr.Mailbox.Auth.{op_byte_fetch, op_byte_delete}
use skattr.Mailbox.Codec.{
  MailboxFrame, deposit, deposit_ok, challenge, challenge_nonce, fetch, fetch_response, delete,
  delete_ok, error, encode_body, encode_frame,
}
use skattr.Mailbox.Dispatch.{
  State, Handler, after, ◌>>=◌, lift, check_version, take_deposit, take_fetch, take_global,
  store_row, within, error_frame, handle_deposit, handle_challenge, Libraries, payload_digest,
  check_signature, handle_fetch, handle_delete,
}
use skattr.Mailbox.Server.{Item, frame, malformed, Draw, handle, to_send, send, turn}

-- Every answer of the handler satisfies `P`.
abbrev Gives : (MailboxFrame → Type 0) → Handler MailboxFrame → Type 0
Gives P m = (s : State) (f : MailboxFrame) → (m s).1 ≡ ok f → P f

bind-Gives :
    {A : Type 0} (P : MailboxFrame → Type 0) (m : Handler A) (k : A → Handler MailboxFrame)
    → ((a : A) → Gives P (k a))
    → Gives P (m >>= k)
bind-Gives {A} P m k rest s f = go (m s)
  where
    go : (x : State × Result A) → (after x k).1 ≡ ok f → P f
    go (s₁, ok a) e = rest a s₁ f e
    go (s₁, err y) e = absurd (let h : ◌≡◌ {A = Result MailboxFrame} (err y) (ok f) = e in cc)

same_frame :
    {g : MailboxFrame} (f : MailboxFrame) → ◌≡◌ {A = Result MailboxFrame} (ok g) (ok f) → f ≡ g
same_frame f e = cc

abbrev IsDepositOk : MailboxFrame → Type 0
IsDepositOk f = (b : DepositOk) × (f ≡ deposit_ok b)

abbrev IsChallengeNonce : MailboxFrame → Type 0
IsChallengeNonce f = (b : ChallengeNonce) × (f ≡ challenge_nonce b)

abbrev IsFetchResponse : MailboxFrame → Type 0
IsFetchResponse f = (b : FetchResponse) × (f ≡ fetch_response b)

abbrev IsDeleteOk : MailboxFrame → Type 0
IsDeleteOk f = (b : DeleteOk) × (f ≡ delete_ok b)

abbrev IsError : MailboxFrame → Type 0
IsError f = (b : ErrorBody) × (f ≡ error b)

-- What may be sent for what was read.
abbrev pub IsAnswer : Item → MailboxFrame → Type 0
IsAnswer (frame (deposit _)) f = IsDepositOk f ⊎ IsError f
IsAnswer (frame (challenge _)) f = IsChallengeNonce f ⊎ IsError f
IsAnswer (frame (fetch _)) f = IsFetchResponse f ⊎ IsError f
IsAnswer (frame (delete _)) f = IsDeleteOk f ⊎ IsError f
IsAnswer _ f = IsError f

sent :
    (P : MailboxFrame → Type 0) (m : Handler MailboxFrame) (s : State)
    → Gives P m
    → P (to_send (m s).1) ⊎ IsError (to_send (m s).1)
unfolding to_send error_frame
sent P m s gives = go (m s).1 (gives s)
  where
    go :
        (r : Result MailboxFrame)
        → ((f : MailboxFrame) → r ≡ ok f → P f)
        → P (to_send r) ⊎ IsError (to_send r)
    go (ok f) h = inl (h f refl)
    go (err e) h = inr (_, refl)

module _ (p : Policy) (libs : Libraries) where
  deposit-Gives :
      (b : Deposit) (id : Bytes) (now now_us : ℕ)
      → Gives IsDepositOk (handle_deposit p b id now now_us)
  unfolding handle_deposit
  deposit-Gives b id now now_us = bind-Gives IsDepositOk (lift (check_version b.version)) _ (λ _.
      bind-Gives IsDepositOk
        (lift (within (length b.ciphertext) p.max_deposit_size (policy too_large))) _
        (λ _. bind-Gives IsDepositOk (take_deposit now_us) _ (λ _.
          bind-Gives IsDepositOk (take_global now_us) _ (λ _.
            bind-Gives IsDepositOk (lift (resolve_ttl p b.ttl_request)) _ (λ ttl.
              bind-Gives IsDepositOk (store_row p _ now) _ (λ _ s f e. (_, same_frame f e)))))))

  challenge-Gives :
      (b : Challenge) (nonce : Bytes) (now : ℕ)
      → Gives IsChallengeNonce (handle_challenge b nonce now)
  unfolding handle_challenge
  challenge-Gives b nonce now =
      bind-Gives IsChallengeNonce (lift (check_version b.version)) _
        (λ _ s f e. (_, same_frame f e))

  fetch-Gives :
      (b : Fetch) (now now_us : ℕ) → Gives IsFetchResponse (handle_fetch libs b now now_us)
  unfolding handle_fetch
  fetch-Gives b now now_us = bind-Gives IsFetchResponse (lift (check_version b.version)) _ (λ _.
      bind-Gives IsFetchResponse (take_fetch now_us) _ (λ _.
        bind-Gives IsFetchResponse
          (lift (payload_digest libs (libs.fetch_tuple b.version b.identity_pubkey b.nonce))) _
          (λ digest.
            bind-Gives IsFetchResponse
              (check_signature libs b.nonce b.identity_pubkey b.signature op_byte_fetch digest now)
              _ (λ _ s f e. (_, same_frame f e)))))

  delete-Gives : (b : Delete) (now : ℕ) → Gives IsDeleteOk (handle_delete libs p b now)
  unfolding handle_delete
  delete-Gives b now = bind-Gives IsDeleteOk (lift (check_version b.version)) _ (λ _.
      bind-Gives IsDeleteOk
        (lift (within (length b.deposit_ids) p.max_delete_ids (policy too_many_delete_ids))) _
        (λ _.
          bind-Gives IsDeleteOk
            (lift (
              payload_digest libs
                (libs.delete_tuple b.version b.identity_pubkey b.nonce b.deposit_ids)))
            _
            (λ digest.
              bind-Gives IsDeleteOk
                (check_signature libs b.nonce b.identity_pubkey b.signature op_byte_delete digest
                  now)
                _ (λ _ s f e. (_, same_frame f e)))))

  -- The answer was sent, or else the client hung up or the codec refused it: its CBOR failed, or it
  -- was above 16 MiB.
  abbrev pub Outcome : Item → (hangs_up : Bool) → Option MailboxFrame → Type 0
  Outcome item hangs_up none =
      (hangs_up ≡ true)
      ⊎ ((f : MailboxFrame) × IsAnswer item f
          × (((e : MailboxError) × (encode_body libs.bodies f ≡ err e))
              ⊎ ((payload : Bytes) × (encode_body libs.bodies f ≡ ok payload)
                  × (max_frame_size < 1 + length payload))))
  Outcome item hangs_up (some f) = (hangs_up ≡ false) × IsAnswer item f

  send-Outcome :
      (item : Item) (hangs_up : Bool) (f : MailboxFrame)
      → IsAnswer item f
      → Outcome item hangs_up (send p libs hangs_up f)
  unfolding send encode_frame
  send-Outcome item true f a = inl refl
  send-Outcome item false f a = elim (Result-cases (encode_body libs.bodies f)) [
    | inl (payload, b) ↦ elim (Bool-cases (ltb max_frame_size (1 + length payload))) [
      | inl large ↦
          rw (b, large, if◌then◌else◌) (inr (f, a, inr (payload, b, ground (arith, large))))
      | inr small ↦ rw (b, small, if◌then◌else◌) (refl, a)
    ]
    | inr (e, b) ↦ rw b (inr (f, a, inl (e, b)))
  ]

  turn_to_send :
      (item : Item) (d : Draw) (s : State)
      → (f : MailboxFrame) × IsAnswer item f × ((turn p libs item d s).1 ≡ send p libs d.hangs_up f)
  unfolding turn handle to_send error_frame
  turn_to_send (frame (deposit b)) d s = (
    _,
    sent IsDepositOk (handle_deposit p b d.random d.now d.now_us) s
        (deposit-Gives b d.random d.now d.now_us),
    refl,
  )
  turn_to_send (frame (challenge b)) d s = (
    _,
    sent IsChallengeNonce (handle_challenge b d.random d.now) s (challenge-Gives b d.random d.now),
    refl,
  )
  turn_to_send (frame (fetch b)) d s = (
    _,
    sent IsFetchResponse (handle_fetch libs b d.now d.now_us) s (fetch-Gives b d.now d.now_us),
    refl,
  )
  turn_to_send (frame (delete b)) d s =
      (_, sent IsDeleteOk (handle_delete libs p b d.now) s (delete-Gives b d.now), refl)
  turn_to_send (malformed kind) d s = (_, (_, refl), refl)
  turn_to_send (frame (deposit_ok b)) d s = (_, (_, refl), refl)
  turn_to_send (frame (challenge_nonce b)) d s = (_, (_, refl), refl)
  turn_to_send (frame (fetch_response b)) d s = (_, (_, refl), refl)
  turn_to_send (frame (delete_ok b)) d s = (_, (_, refl), refl)
  turn_to_send (frame (error b)) d s = (_, (_, refl), refl)

  -- What is sent after a frame that was read, or after an error of the codec, is the answer to
  -- that request or an error, and an error after a frame that is no request. Nothing is sent only
  -- when the client hangs up or such an answer cannot be encoded, because CBOR fails or it is
  -- above 16 MiB.
  pub turn_answers :
      (item : Item) (d : Draw) (s : State) → Outcome item d.hangs_up (turn p libs item d s).1
  turn_answers item d s =
      let (f, a, e) = turn_to_send item d s in
      subst (Outcome item d.hangs_up) (sym e) (send-Outcome item d.hangs_up f a)
