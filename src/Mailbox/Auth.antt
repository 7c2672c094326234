-- ===== src/Mailbox/Auth.antt =====
-- crates/mailbox/src/auth.rs and crates/core/src/mailbox/auth.rs: the challenge nonces and the
-- bytes that a client signs. The hash map is an association list; its order is not observed. The
-- random nonce is an argument. SHA-256 and Ed25519 are libraries: parameters.
pub mod Challenges
pub mod Sweeping
pub mod Signing
use skattr.Base.{
  ℕ, suc, ◌+◌, ◌-◌, Bool, true, false, not, ◌&&◌, List, [], ◌∷◌, ◌++◌, Option, none, some, Bytes,
  length, ltb, if◌then◌else◌, same, select,
}
use skattr.Mailbox.Failure.{
  Result, ok, err, auth, AuthErrorKind, hash_mismatch, invalid_signature, nonce_expired,
}

-- `Sha256::digest`, `VerifyingKey::from_bytes` (does it accept the key) and `verify`.
pub record Crypto : Type 0 where
  pub sha256 : Bytes → Bytes
  pub is_key : Bytes → Bool
  pub verifies : (key input signature : Bytes) → Bool

-- b"skattr-mailbox-auth-v1"
abbrev pub auth_domain : Bytes
auth_domain =
    b's' ∷ b'k' ∷ b'a' ∷ b't' ∷ b't' ∷ b'r' ∷ b'-' ∷ b'm' ∷ b'a' ∷ b'i' ∷ b'l' ∷ b'b' ∷ b'o' ∷ b'x'
    ∷ b'-' ∷ b'a' ∷ b'u' ∷ b't' ∷ b'h' ∷ b'-' ∷ b'v' ∷ b'1' ∷ []

abbrev pub op_byte_fetch : ℕ
op_byte_fetch = 0x86

abbrev pub op_byte_delete : ℕ
op_byte_delete = 0x88

unfoldable pub signing_input : Bytes → ℕ → Bytes → Bytes
signing_input nonce op_byte payload_digest = auth_domain ++ (nonce ++ (op_byte ∷ payload_digest))

abbrev pub challenge_ttl_secs : ℕ
challenge_ttl_secs = 30

pub record Issued : Type 0 where
  pub identity_hash : Bytes
  pub issued_at : ℕ

-- `HashMap<[u8; 32], Issued>`
abbrev pub Challenges : Type 0
Challenges = List (Bytes × Issued)

unfoldable pub get : Bytes → Challenges → Option Issued
get n [] = none
get n ((k, i) ∷ c) = if same k n then some i else get n c

unfoldable pub remove : Bytes → Challenges → Challenges
remove n c = select (λ e. not (same e.0 n)) c

-- `HashMap::insert` replaces the entry of a key.
unfoldable pub issue : Challenges → Bytes → Bytes → ℕ → Challenges
unfolding remove
issue c nonce identity_hash now =
    (nonce, record { identity_hash = identity_hash; issued_at = now }) ∷ remove nonce c

-- A time before the issue counts as no age, as the signed difference does.
abbrev pub is_old : ℕ → Issued → Bool
is_old now i = ltb challenge_ttl_secs (now - i.issued_at)

module _ (crypto : Crypto) where
  -- The table after the call, and its result.
  unfoldable pub verify :
      Challenges
      → (nonce identity_pubkey signature : Bytes) (op_byte : ℕ) (payload_hash : Bytes) (now : ℕ)
      → Challenges × Result (Unit {0})
  verify c nonce identity_pubkey signature op_byte payload_hash now = elim (get nonce c) [
    | none ↦ (c, err (auth nonce_expired))
    | some issued ↦
        if is_old now issued
        then (remove nonce c, err (auth nonce_expired))
        else if not (same (crypto.sha256 identity_pubkey) issued.identity_hash)
        then (c, err (auth hash_mismatch))
        else if not (crypto.is_key identity_pubkey)
        then (c, err (auth invalid_signature))
        else if not
            (crypto.verifies identity_pubkey (signing_input nonce op_byte payload_hash) signature)
        then (c, err (auth invalid_signature))
        else (remove nonce c, ok tt)
  ]

-- The table after the call, and the number of nonces evicted.
unfoldable pub sweep : Challenges → ℕ → Challenges × ℕ
sweep c now = let c' = select (λ e. not (is_old now e.1)) c in (c', length c - length c')
