-- ===== src/Mailbox/Codec.antt =====
-- crates/mailbox/src/codec.rs: the frames between client and mailbox server.
pub mod RoundTrip
use skattr.Base.{
  ℕ, ◌+◌, List, [], ◌∷◌, ◌++◌, Option, none, some, Bytes, length, ltb, ◌==◌, if◌then◌else◌,
}
use skattr.Wire.{
  Serde, max_frame_size, Head, incomplete, zero_length, too_large, whole, head, put_frame,
}
use skattr.Mailbox.Protocol.{
  Deposit, DepositOk, Challenge, ChallengeNonce, Fetch, FetchResponse, Delete, DeleteOk, ErrorBody,
}
use skattr.Mailbox.Failure.{Result, ok, err, ◌>>=◌, transport, encode_failed, decode_failed}

pub data MailboxFrame : Type 0 where
  deposit : Deposit → MailboxFrame
  deposit_ok : DepositOk → MailboxFrame
  challenge : Challenge → MailboxFrame
  challenge_nonce : ChallengeNonce → MailboxFrame
  fetch : Fetch → MailboxFrame
  fetch_response : FetchResponse → MailboxFrame
  delete : Delete → MailboxFrame
  delete_ok : DeleteOk → MailboxFrame
  error : ErrorBody → MailboxFrame

-- `MailboxFrameKind as u8` of `kind()`
unfoldable pub kind_byte : MailboxFrame → ℕ
kind_byte (deposit _) = 0x82
kind_byte (deposit_ok _) = 0x83
kind_byte (challenge _) = 0x84
kind_byte (challenge_nonce _) = 0x85
kind_byte (fetch _) = 0x86
kind_byte (fetch_response _) = 0x87
kind_byte (delete _) = 0x88
kind_byte (delete_ok _) = 0x89
kind_byte (error _) = 0x8F

-- ciborium at the types of the bodies.
pub record Bodies : Type 0 where
  pub deposit_body : Serde Deposit
  pub deposit_ok_body : Serde DepositOk
  pub challenge_body : Serde Challenge
  pub challenge_nonce_body : Serde ChallengeNonce
  pub fetch_body : Serde Fetch
  pub fetch_response_body : Serde FetchResponse
  pub delete_body : Serde Delete
  pub delete_ok_body : Serde DeleteOk
  pub error_body : Serde ErrorBody

abbrev pub encode_cbor {ℓ} : {A : Type ℓ} → Serde A → A → Result Bytes
encode_cbor s a = elim (s.into_writer a) [
  | none ↦ err (transport encode_failed)
  | some bytes ↦ ok bytes
]

abbrev pub decode_cbor {ℓ} : {A : Type ℓ} → Serde A → Bytes → Result A
decode_cbor s bytes = elim (s.from_reader bytes) [
  | none ↦ err (transport decode_failed)
  | some a ↦ ok a
]

module _ (bodies : Bodies) where
  open bodies use {
    deposit_body, deposit_ok_body, challenge_body, challenge_nonce_body, fetch_body,
    fetch_response_body, delete_body, delete_ok_body, error_body,
  }

  unfoldable pub encode_body : MailboxFrame → Result Bytes
  encode_body (deposit b) = encode_cbor deposit_body b
  encode_body (deposit_ok b) = encode_cbor deposit_ok_body b
  encode_body (challenge b) = encode_cbor challenge_body b
  encode_body (challenge_nonce b) = encode_cbor challenge_nonce_body b
  encode_body (fetch b) = encode_cbor fetch_body b
  encode_body (fetch_response b) = encode_cbor fetch_response_body b
  encode_body (delete b) = encode_cbor delete_body b
  encode_body (delete_ok b) = encode_cbor delete_ok_body b
  encode_body (error b) = encode_cbor error_body b

  -- `dst` after a successful call; an error leaves it as it was.
  unfoldable pub encode_frame : MailboxFrame → Bytes → Result Bytes
  unfolding kind_byte
  encode_frame item dst = encode_body item >>= λ payload.
      if ltb max_frame_size (1 + length payload)
      then err (transport encode_failed)
      else ok (dst ++ put_frame (kind_byte item) payload)

  unfoldable pub parse_body : ℕ → Bytes → Result MailboxFrame
  parse_body t payload =
      if t == 0x82
      then (do b ← decode_cbor deposit_body payload; ok (deposit b))
      else if t == 0x83
      then (do b ← decode_cbor deposit_ok_body payload; ok (deposit_ok b))
      else if t == 0x84
      then (do b ← decode_cbor challenge_body payload; ok (challenge b))
      else if t == 0x85
      then (do b ← decode_cbor challenge_nonce_body payload; ok (challenge_nonce b))
      else if t == 0x86
      then (do b ← decode_cbor fetch_body payload; ok (fetch b))
      else if t == 0x87
      then (do b ← decode_cbor fetch_response_body payload; ok (fetch_response b))
      else if t == 0x88
      then (do b ← decode_cbor delete_body payload; ok (delete b))
      else if t == 0x89
      then (do b ← decode_cbor delete_ok_body payload; ok (delete_ok b))
      else if t == 0x8F
      then (do b ← decode_cbor error_body payload; ok (error b))
      else err (transport decode_failed)

  -- The buffer after the call, and its result.
  unfoldable pub decode_frame : Bytes → Bytes × Result (Option MailboxFrame)
  decode_frame src = elim (head src) [
    | incomplete ↦ (src, ok none)
    | zero_length ↦ (src, err (transport decode_failed))
    | too_large len ↦ (src, err (transport decode_failed))
    | whole t payload rest ↦ (rest, (do frame ← parse_body t payload; ok (some frame)))
  ]
