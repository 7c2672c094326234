-- ===== src/Mailbox/Failure.antt =====
-- crates/mailbox/src/error.rs: the errors of the server and the code that each has on the wire.
-- The texts that some errors carry are dropped: no code reads them.
use skattr.Base.{◌≡◌, refl, ◌⊎◌, inl, inr}
use skattr.Mailbox.Protocol.{ErrorCode}

pub data StorageErrorKind : Type 0 where
  migration_failed sqlite not_found poisoned : StorageErrorKind

pub data AuthErrorKind : Type 0 where
  hash_mismatch invalid_signature nonce_expired poisoned : AuthErrorKind

pub data PolicyErrorKind : Type 0 where
  too_large ttl_too_long ttl_too_short rate_limited recipient_full server_full : PolicyErrorKind
  recipient_limit poisoned too_many_delete_ids : PolicyErrorKind

pub data TransportErrorKind : Type 0 where
  encode_failed decode_failed unsupported_version : TransportErrorKind

pub data ConfigErrorKind : Type 0 where
  io parse invalid : ConfigErrorKind

pub data MailboxError : Type 0 where
  storage : StorageErrorKind → MailboxError
  auth : AuthErrorKind → MailboxError
  policy : PolicyErrorKind → MailboxError
  transport : TransportErrorKind → MailboxError
  config : ConfigErrorKind → MailboxError
  io unsupported : MailboxError

unfoldable pub to_wire_code : MailboxError → ErrorCode
to_wire_code (auth hash_mismatch) = ErrorCode.hash_mismatch
to_wire_code (auth invalid_signature) = ErrorCode.invalid_signature
to_wire_code (auth nonce_expired) = ErrorCode.nonce_expired
to_wire_code (policy too_large) = ErrorCode.too_large
to_wire_code (policy ttl_too_long) = ErrorCode.ttl_too_long
to_wire_code (policy ttl_too_short) = ErrorCode.ttl_too_short
to_wire_code (policy rate_limited) = ErrorCode.rate_limited
to_wire_code (policy recipient_full) = ErrorCode.recipient_full
to_wire_code (policy server_full) = ErrorCode.recipient_full
to_wire_code (policy recipient_limit) = ErrorCode.recipient_full
to_wire_code (policy too_many_delete_ids) = ErrorCode.malformed_request
to_wire_code (storage not_found) = ErrorCode.not_found
to_wire_code (transport decode_failed) = ErrorCode.malformed_request
to_wire_code (transport unsupported_version) = ErrorCode.unsupported_version
to_wire_code _ = ErrorCode.internal

pub data Result {ℓ} (A : Type ℓ) : Type ℓ where
  ok : A → Result A
  err : MailboxError → Result A

pub Result-cases {ℓ} :
    {A : Type ℓ} (r : Result A) → ((a : A) × (r ≡ ok a)) ⊎ ((e : MailboxError) × (r ≡ err e))
Result-cases (ok a) = inl (a, refl)
Result-cases (err e) = inr (e, refl)

infixl 5 ◌>>=◌ ◌>>◌
abbrev pub ◌>>=◌ {κ ℓ} : {B : Type κ} {A : Type ℓ} → Result A → (A → Result B) → Result B
err e >>= next = err e
ok a >>= next = next a

-- What follows `?` in a function whose first call returns nothing.
abbrev pub ◌>>◌ {κ} : {B : Type κ} → Result (Unit {0}) → Result B → Result B
first >> second = first >>= λ _. second

-- Both steps of a bind that succeeds have succeeded.
pub bind-eq-ok {κ ℓ} :
    {B : Type κ} {A : Type ℓ} (first : Result A) (next : A → Result B) {b : B}
    → (first >>= next) ≡ ok b
    → (a : A) × (first ≡ ok a) × (next a ≡ ok b)
bind-eq-ok (err e) next k = cc
bind-eq-ok (ok a) next k = (a, refl, k)
