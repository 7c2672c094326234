-- ===== src/Mailbox/Dispatch.antt =====
-- crates/mailbox/src/dispatch.rs: the request handlers. A handler takes the state that it may
-- change and returns it with a frame or an error; what it changed before an error stays changed.
-- The locks are never poisoned. The random id and nonce are arguments, and so is the clock.
pub mod Steps
pub mod Errors
pub mod Authorised
pub mod Invariant
pub mod Delivery
use Prim.Native.String.{String}
use skattr.Base.{
  ℕ, ◌+◌, ◌-◌, ◌^◌, List, [], ◌∷◌, Option, none, some, Bytes, length, map, ltb, ◌==◌, if◌then◌else◌,
  min,
}
use skattr.Mailbox.Protocol.{
  protocol_version, Deposit, Challenge, Fetch, Delete, PendingDeposit, ErrorBody,
}
use skattr.Mailbox.Failure.{
  Result, ok, err, MailboxError, storage, auth, policy, transport, to_wire_code, too_large,
  ttl_too_long, ttl_too_short, rate_limited, recipient_full, server_full, recipient_limit,
  too_many_delete_ids, unsupported_version, decode_failed, encode_failed,
}
use skattr.Mailbox.Store.{Row, Table, StoredDeposit, insert}
use skattr.Mailbox.Store
use skattr.Mailbox.Auth.{Crypto, Challenges, issue, verify, op_byte_fetch, op_byte_delete}
use skattr.Mailbox.Policy.{Policy, resolve_ttl, TokenBucket, ConnRateLimiter, try_acquire}
use skattr.Mailbox.Codec.{
  Bodies, MailboxFrame, deposit_ok, challenge_nonce, fetch_response, delete_ok, error,
}

-- What `DispatchCtx` gives access to: the store, the challenges, the limiter of the connection and
-- that of the server.
pub record State : Type 0 where
  pub deposits : Table
  pub challenges : Challenges
  pub conn_rl : ConnRateLimiter
  pub global_rl : TokenBucket

abbrev pub Handler : Type 0 → Type 0
Handler A = State → State × Result A

abbrev pub after : {A B : Type 0} → State × Result A → (A → Handler B) → State × Result B
after (s, ok a) f = f a s
after (s, err e) f = (s, err e)

infixl 5 ◌>>=◌ ◌>>◌
abbrev pub ◌>>=◌ : {A B : Type 0} → Handler A → (A → Handler B) → Handler B
◌>>=◌ m f s = after (m s) f

abbrev pub ◌>>◌ : {B : Type 0} → Handler (Unit {0}) → Handler B → Handler B
m >> k = m >>= λ _. k

abbrev pub lift : {A : Type 0} → Result A → Handler A
lift r s = (s, r)

unfoldable pub check_version : ℕ → Result (Unit {0})
check_version version =
    if version == protocol_version then ok tt else err (transport unsupported_version)

-- The texts are fixed: none holds anything of the request.
unfoldable pub error_message : MailboxError → String
error_message (auth _) = "auth failed"
error_message (policy too_large) = "too large"
error_message (policy ttl_too_long) = "ttl too long"
error_message (policy ttl_too_short) = "ttl too short"
error_message (policy rate_limited) = "rate limited"
error_message (policy recipient_full) = "recipient full"
error_message (policy server_full) = "server full"
error_message (policy recipient_limit) = "recipient limit"
error_message (policy too_many_delete_ids) = "too many delete ids"
error_message (transport unsupported_version) = "unsupported version"
error_message (transport decode_failed) = "malformed request"
error_message _ = "internal error"

unfoldable pub error_frame : MailboxError → MailboxFrame
unfolding error_message
error_frame e = error (record { code = to_wire_code e; message = error_message e })

-- `rl.deposits.try_acquire`, `rl.fetches.try_acquire` and `global_rl.try_acquire`.
unfoldable pub take_deposit : ℕ → Handler (Unit {0})
take_deposit now_us s =
    let (b, r) = try_acquire s.conn_rl.deposits now_us in
    (record s { conn_rl = record { deposits = b; fetches = s.conn_rl.fetches } }, r)

unfoldable pub take_fetch : ℕ → Handler (Unit {0})
take_fetch now_us s =
    let (b, r) = try_acquire s.conn_rl.fetches now_us in
    (record s { conn_rl = record { deposits = s.conn_rl.deposits; fetches = b } }, r)

unfoldable pub take_global : ℕ → Handler (Unit {0})
take_global now_us s =
    let (b, r) = try_acquire s.global_rl now_us in (record s { global_rl = b }, r)

-- `store.insert` with the caps of the policy.
unfoldable pub store_row : Policy → Row → ℕ → Handler (Unit {0})
store_row p r now s =
    elim (insert s.deposits r p.recipient_cap_bytes p.global_storage_cap_bytes p.max_recipients
      now) [ ok t ↦ (record s { deposits = t }, ok tt) | err e ↦ (s, err e) ]

abbrev pub within : ℕ → ℕ → MailboxError → Result (Unit {0})
within n cap e = if ltb cap n then err e else ok tt

module _ (p : Policy) where
  -- `now.saturating_add(ttl)` is an i64.
  unfoldable pub handle_deposit : Deposit → Bytes → (now now_us : ℕ) → Handler MailboxFrame
  unfolding check_version take_deposit take_global store_row
  handle_deposit body id now now_us = do
    lift (check_version body.version)
    lift (within (length body.ciphertext) p.max_deposit_size (policy too_large))
    take_deposit now_us
    take_global now_us
    ttl ← lift (resolve_ttl p body.ttl_request)
    let expires_at = min (now + ttl) (2 ^ 63 - 1)
    store_row p
        (record {
          deposit_id = id;
          recipient_hash = body.recipient_hash;
          ciphertext = body.ciphertext;
          deposited_at = now;
          expires_at = expires_at;
        })
        now
    lift (ok (deposit_ok (record { deposit_id = id; expires_at = expires_at })))

unfoldable pub handle_challenge : Challenge → Bytes → ℕ → Handler MailboxFrame
unfolding check_version
handle_challenge body nonce now = do
  lift (check_version body.version)
  (λ s. (
    record s { challenges = issue s.challenges nonce body.identity_hash now },
    ok (challenge_nonce (record { nonce = nonce; issued_at = now })),
  ))

-- The libraries of the two signed requests: SHA-256 and Ed25519, and ciborium on the tuples
-- `(version, identity_pubkey, nonce)` and `(version, identity_pubkey, nonce, deposit_ids)`.
pub record Libraries : Type 0 where
  pub crypto : Crypto
  pub fetch_tuple : ℕ → Bytes → Bytes → Option Bytes
  pub delete_tuple : ℕ → Bytes → Bytes → List Bytes → Option Bytes
  pub bodies : Bodies

abbrev pub to_pending : StoredDeposit → PendingDeposit
to_pending d = record {
  deposit_id = d.deposit_id;
  ciphertext = d.ciphertext;
  received_at = d.received_at;
}

module _ (libs : Libraries) where
  abbrev pub payload_digest : Option Bytes → Result Bytes
  payload_digest none = err (transport encode_failed)
  payload_digest (some buf) = ok (libs.crypto.sha256 buf)

  unfoldable pub check_signature :
      (nonce identity_pubkey signature : Bytes) (op_byte : ℕ) (digest : Bytes) (now : ℕ)
      → Handler (Unit {0})
  check_signature nonce identity_pubkey signature op_byte digest now s =
      let (c, r) =
        verify libs.crypto s.challenges nonce identity_pubkey signature op_byte digest now in
      (record s { challenges = c }, r)

  unfoldable pub handle_fetch : Fetch → (now now_us : ℕ) → Handler MailboxFrame
  unfolding check_version take_fetch check_signature
  handle_fetch body now now_us = do
    lift (check_version body.version)
    take_fetch now_us
    digest ← lift (payload_digest (libs.fetch_tuple body.version body.identity_pubkey body.nonce))
    check_signature body.nonce body.identity_pubkey body.signature op_byte_fetch digest now
    (λ s. (
      s,
      ok (
          fetch_response (record {
            deposits =
                map to_pending
                  (Store.fetch s.deposits (libs.crypto.sha256 body.identity_pubkey) now);
          })),
    ))

  unfoldable pub handle_delete : Policy → Delete → ℕ → Handler MailboxFrame
  unfolding check_version check_signature
  handle_delete p body now = do
    lift (check_version body.version)
    lift (within (length body.deposit_ids) p.max_delete_ids (policy too_many_delete_ids))
    digest ← lift (
        payload_digest
          (libs.delete_tuple body.version body.identity_pubkey body.nonce body.deposit_ids))
    check_signature body.nonce body.identity_pubkey body.signature op_byte_delete digest now
    (λ s.
        let (t, deleted, not_found) =
          Store.delete s.deposits (libs.crypto.sha256 body.identity_pubkey) body.deposit_ids in
        (
          record s { deposits = t },
          ok (delete_ok (record { deleted = deleted; not_found = not_found })),
        ))
