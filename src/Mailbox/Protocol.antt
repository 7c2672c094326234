-- ===== src/Mailbox/Protocol.antt =====
-- crates/core/src/mailbox/protocol.rs: the bodies of the mailbox frames. Arrays of bytes are lists
-- of bytes; times are unix seconds and not negative.
use Prim.Native.String.{String}
use skattr.Base.{ℕ, List, Bytes}

abbrev pub protocol_version : ℕ
protocol_version = 1

pub record Deposit : Type 0 where
  pub version : ℕ
  pub recipient_hash : Bytes
  pub ciphertext : Bytes
  pub ttl_request : ℕ

pub record DepositOk : Type 0 where
  pub deposit_id : Bytes
  pub expires_at : ℕ

pub record Challenge : Type 0 where
  pub version : ℕ
  pub identity_hash : Bytes

pub record ChallengeNonce : Type 0 where
  pub nonce : Bytes
  pub issued_at : ℕ

pub record Fetch : Type 0 where
  pub version : ℕ
  pub identity_pubkey : Bytes
  pub nonce : Bytes
  pub signature : Bytes

pub record PendingDeposit : Type 0 where
  pub deposit_id : Bytes
  pub ciphertext : Bytes
  pub received_at : ℕ

pub record FetchResponse : Type 0 where
  pub deposits : List PendingDeposit

pub record Delete : Type 0 where
  pub version : ℕ
  pub identity_pubkey : Bytes
  pub nonce : Bytes
  pub signature : Bytes
  pub deposit_ids : List Bytes

pub record DeleteOk : Type 0 where
  pub deleted : ℕ
  pub not_found : ℕ

pub data ErrorCode : Type 0 where
  unsupported_version malformed_request too_large rate_limited recipient_full : ErrorCode
  ttl_too_long ttl_too_short invalid_signature hash_mismatch nonce_expired : ErrorCode
  not_found internal : ErrorCode

pub record ErrorBody : Type 0 where
  pub code : ErrorCode
  pub message : String
