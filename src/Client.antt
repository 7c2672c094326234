-- ===== src/Client.antt =====
-- crates/core/src/mailbox/client.rs: the client of a mailbox server. The connection is a parameter:
-- what it makes of a frame that is sent, in a state of its own. SHA-256, the signature and ciborium
-- on the signed tuples are parameters too. The frames are those of the mailbox codec.
pub mod Served
pub mod Answered
pub mod Deposits
pub mod Delivered
mod Tests
use skattr.Base.{ℕ, Bool, List, Option, none, some, Bytes}
use skattr.Base.Results.{Result, ok, err}
use skattr.Mailbox.Protocol.{protocol_version, DepositOk, FetchResponse, DeleteOk, ErrorCode}
use skattr.Mailbox.Auth.{signing_input, op_byte_fetch, op_byte_delete}
use skattr.Mailbox.Codec.{
  MailboxFrame, deposit, deposit_ok, challenge, challenge_nonce, fetch, fetch_response, delete,
  delete_ok, error,
}
use skattr.Mailbox.Dispatch.{Libraries}

-- `MailboxClientErrorKind`; the text of `other` is dropped.
pub data ClientErrorKind : Type 0 where
  unreachable unsupported_version rate_limited recipient_full invalid_signature : ClientErrorKind
  nonce_expired malformed hash_mismatch other : ClientErrorKind

unfoldable pub map_error : ErrorCode → ClientErrorKind
map_error ErrorCode.unsupported_version = unsupported_version
map_error ErrorCode.rate_limited = rate_limited
map_error ErrorCode.recipient_full = recipient_full
map_error ErrorCode.invalid_signature = invalid_signature
map_error ErrorCode.nonce_expired = nonce_expired
map_error ErrorCode.hash_mismatch = hash_mismatch
map_error ErrorCode.malformed_request = malformed
map_error _ = other

-- What comes of sending a frame and awaiting the next one.
pub data Exchange : Type 0 where
  send_failed closed : Exchange
  failed : ClientErrorKind → Exchange
  answered : MailboxFrame → Exchange

-- The `match` on the reply of each request, given what it accepts.
unfoldable pub expect :
    {A : Type 0} → (MailboxFrame → Option A) → Exchange → Result ClientErrorKind A
expect accept send_failed = err unreachable
expect accept closed = err unreachable
expect accept (failed e) = err e
expect accept (answered (error b)) = err (map_error b.code)
expect accept (answered f) = elim (accept f) [ none ↦ err malformed | some a ↦ ok a ]

abbrev pub as_deposit_ok : MailboxFrame → Option DepositOk
as_deposit_ok (deposit_ok b) = some b
as_deposit_ok _ = none

abbrev pub as_nonce : MailboxFrame → Option Bytes
as_nonce (challenge_nonce b) = some b.nonce
as_nonce _ = none

abbrev pub as_fetch_response : MailboxFrame → Option FetchResponse
as_fetch_response (fetch_response b) = some b
as_fetch_response _ = none

abbrev pub as_delete_ok : MailboxFrame → Option DeleteOk
as_delete_ok (delete_ok b) = some b
as_delete_ok _ = none

-- `IdentityKey`: the public key, and its signature of a message.
pub record Identity : Type 0 where
  pub public : Bytes
  pub sign : Bytes → Bytes

-- Actions on a connection in state `W`, which can fail.
abbrev pub Action : Type 0 → Type 0 → Type 0
Action W A = W → W × Result ClientErrorKind A

module _ {W A B : Type 0} where
  abbrev pub proceed :
      W × Result ClientErrorKind A → (A → Action W B) → W × Result ClientErrorKind B
  proceed (w, ok a) k = k a w
  proceed (w, err e) k = (w, err e)

  infixl 5 ◌>>=◌
  abbrev pub ◌>>=◌ : Action W A → (A → Action W B) → Action W B
  ◌>>=◌ m k w = proceed (m w) k

module _ {W : Type 0} (send : W → MailboxFrame → W × Exchange) where
  abbrev pub request : {A : Type 0} → MailboxFrame → (MailboxFrame → Option A) → Action W A
  request f accept w = let (w', x) = send w f in (w', expect accept x)

  unfoldable pub deposit_blob :
      (recipient_hash ciphertext : Bytes) (ttl_request : ℕ) → Action W DepositOk
  unfolding expect
  deposit_blob recipient_hash ciphertext ttl_request =
      request
        (deposit (record {
          version = protocol_version;
          recipient_hash = recipient_hash;
          ciphertext = ciphertext;
          ttl_request = ttl_request;
        }))
        as_deposit_ok

  -- `challenge`, which `probe` sends too.
  unfoldable pub request_nonce : (identity_hash : Bytes) → Action W Bytes
  unfolding expect
  request_nonce identity_hash =
      request (challenge (record { version = protocol_version; identity_hash = identity_hash }))
        as_nonce

  module _ (libs : Libraries) (identity : Identity) where
    -- `payload_digest`, whose error is `Other`.
    abbrev pub digest_of : Option Bytes → Action W Bytes
    digest_of none w = (w, err other)
    digest_of (some tuple) w = (w, ok (libs.crypto.sha256 tuple))

    unfoldable pub fetch_all : Action W FetchResponse
    unfolding request_nonce expect
    fetch_all = do
      nonce ← request_nonce (libs.crypto.sha256 identity.public)
      digest ← digest_of (libs.fetch_tuple protocol_version identity.public nonce)
      request
          (fetch (record {
            version = protocol_version;
            identity_pubkey = identity.public;
            nonce = nonce;
            signature = identity.sign (signing_input nonce op_byte_fetch digest);
          }))
          as_fetch_response

    unfoldable pub delete_ids : List Bytes → Action W DeleteOk
    unfolding request_nonce expect
    delete_ids deposit_ids = do
      nonce ← request_nonce (libs.crypto.sha256 identity.public)
      digest ← digest_of (libs.delete_tuple protocol_version identity.public nonce deposit_ids)
      request
          (delete (record {
            version = protocol_version;
            identity_pubkey = identity.public;
            nonce = nonce;
            signature = identity.sign (signing_input nonce op_byte_delete digest);
            deposit_ids = deposit_ids;
          }))
          as_delete_ok
