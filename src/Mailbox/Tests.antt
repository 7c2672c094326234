-- ===== src/Mailbox/Tests.antt =====
-- The server on concrete requests. The toy libraries: the hash is the identity, and a signature is
-- the signed string itself.
use skattr.Base.{
  ℕ, ◌+◌, ◌*◌, ◌≤◌, ◌≡◌, ◌↔◌, refl, true, List, [], ◌∷◌, Option, ◌++◌, none, some, Bytes, arith,
  same,
}
use skattr.Wire.{Serde, put_frame, to_be}
use skattr.Mailbox.Protocol.{
  Deposit, Fetch, Challenge, ChallengeNonce, DepositOk, PendingDeposit, FetchResponse,
}
use skattr.Mailbox.Failure.{ok, err, auth, nonce_expired}
use skattr.Mailbox.Auth.{
  Crypto, Challenges, get, verify, issue, sweep, signing_input, op_byte_fetch,
}
use skattr.Mailbox.Auth.Challenges.{
  Authentic, verify_iff, verify_once, Unissued, uses, sweeps, issues, at_once,
}
use skattr.Mailbox.Policy.{token, new, acquire_all}
use skattr.Mailbox.Policy.Bounds.{rate_limit}
use skattr.Mailbox.Codec.{challenge, Bodies, encode_body, encode_frame, kind_byte}
use skattr.Mailbox.Dispatch.{Libraries}

abbrev pub crypto : Crypto
crypto = record {
  sha256 = λ bytes. bytes;
  is_key = λ key. true;
  verifies = λ key input signature. same input signature;
}

abbrev pub silent : {A : Type 0} → Serde A
silent = record {
  into_writer = λ a. none;
  from_reader = λ bytes. none;
  reads_back = λ a bytes e. absurd (let k : none ≡ some bytes = e in cc);
}

abbrev toy_challenge : Serde Challenge
toy_challenge = record {
  into_writer = λ c. some (c.version ∷ c.identity_hash);
  from_reader = elim [ [] ↦ none | v ∷ h ↦ some (record { version = v; identity_hash = h }) ];
  reads_back = λ c bytes e. ground arith;
}

abbrev toy_deposit_ok : Serde DepositOk
toy_deposit_ok = record {
  into_writer = λ b. some (b.expires_at ∷ b.deposit_id);
  from_reader = elim [ [] ↦ none | t ∷ id ↦ some (record { deposit_id = id; expires_at = t }) ];
  reads_back = λ b bytes e. ground arith;
}

abbrev toy_nonce : Serde ChallengeNonce
toy_nonce = record {
  into_writer = λ b. some (b.issued_at ∷ b.nonce);
  from_reader = elim [ [] ↦ none | t ∷ n ↦ some (record { nonce = n; issued_at = t }) ];
  reads_back = λ b bytes e. ground arith;
}

-- One deposit at most, with an id of one byte.
abbrev write_response : List PendingDeposit → Option Bytes
write_response [] = some []
write_response (d ∷ []) = elim d.deposit_id [
  | [] ↦ none
  | a ∷ more ↦ elim more [ [] ↦ some (a ∷ d.received_at ∷ d.ciphertext) | _ ∷ _ ↦ none ]
]
write_response (d ∷ e ∷ ds) = none

abbrev read_response : Bytes → Option FetchResponse
read_response [] = some (record { deposits = [] })
read_response (a ∷ []) = none
read_response (a ∷ t ∷ c) =
    some
      (record { deposits = record { deposit_id = a ∷ []; ciphertext = c; received_at = t } ∷ [] })

pub response_reads_back :
    (ds : List PendingDeposit) (bytes : Bytes)
    → write_response ds ≡ some bytes
    → read_response bytes ≡ some (record { deposits = ds })
response_reads_back [] bytes e = ground (arith, e)
response_reads_back (d ∷ []) bytes e = one d.deposit_id refl
  where
    one :
        (id : Bytes) → d.deposit_id ≡ id → read_response bytes ≡ some (record { deposits = d ∷ [] })
    one [] k = absurd (ground (arith, k, e))
    one (a ∷ []) k = ground (arith, k, e)
    one (a ∷ b ∷ more) k = absurd (ground (arith, k, e))
response_reads_back (d ∷ x ∷ ds) bytes e = absurd (let k : none ≡ some bytes = e in cc)

abbrev toy_response : Serde FetchResponse
toy_response = record {
  into_writer = λ b. write_response b.deposits;
  from_reader = read_response;
  reads_back = λ b. response_reads_back b.deposits;
}

-- A deposit for a hash of one byte, and a fetch with a key and a nonce of one byte.
abbrev write_deposit : ℕ → ℕ → Bytes → Bytes → Option Bytes
write_deposit v t (h ∷ []) c = some (v ∷ t ∷ h ∷ c)
write_deposit v t _ c = none

abbrev read_deposit : Bytes → Option Deposit
read_deposit (v ∷ t ∷ h ∷ c) =
    some (record { version = v; recipient_hash = h ∷ []; ciphertext = c; ttl_request = t })
read_deposit _ = none

pub deposit_reads_back :
    (v t : ℕ) (h c bytes : Bytes)
    → write_deposit v t h c ≡ some bytes
    → read_deposit bytes
      ≡ some (record { version = v; recipient_hash = h; ciphertext = c; ttl_request = t })
deposit_reads_back v t [] c bytes e = absurd (let k : none ≡ some bytes = e in cc)
deposit_reads_back v t (h ∷ []) c bytes e = ground (arith, e)
deposit_reads_back v t (h ∷ x ∷ hs) c bytes e = absurd (let k : none ≡ some bytes = e in cc)

abbrev toy_deposit : Serde Deposit
toy_deposit = record {
  into_writer = λ b. write_deposit b.version b.ttl_request b.recipient_hash b.ciphertext;
  from_reader = read_deposit;
  reads_back = λ b. deposit_reads_back b.version b.ttl_request b.recipient_hash b.ciphertext;
}

abbrev write_fetch : ℕ → Bytes → Bytes → Bytes → Option Bytes
write_fetch v (k ∷ []) (n ∷ []) sig = some (v ∷ k ∷ n ∷ sig)
write_fetch v _ _ sig = none

abbrev read_fetch : Bytes → Option Fetch
read_fetch (v ∷ k ∷ n ∷ sig) =
    some (record { version = v; identity_pubkey = k ∷ []; nonce = n ∷ []; signature = sig })
read_fetch _ = none

pub fetch_reads_back :
    (v : ℕ) (k n sig bytes : Bytes)
    → write_fetch v k n sig ≡ some bytes
    → read_fetch bytes
      ≡ some (record { version = v; identity_pubkey = k; nonce = n; signature = sig })
fetch_reads_back v [] n sig bytes e = absurd (let k : none ≡ some bytes = e in cc)
fetch_reads_back v (k ∷ []) [] sig bytes e = absurd (let k : none ≡ some bytes = e in cc)
fetch_reads_back v (k ∷ []) (n ∷ []) sig bytes e = ground (arith, e)
fetch_reads_back v (k ∷ []) (n ∷ x ∷ ns) sig bytes e = absurd (let k : none ≡ some bytes = e in cc)
fetch_reads_back v (k ∷ x ∷ ks) n sig bytes e = absurd (let k : none ≡ some bytes = e in cc)

abbrev toy_fetch : Serde Fetch
toy_fetch = record {
  into_writer = λ b. write_fetch b.version b.identity_pubkey b.nonce b.signature;
  from_reader = read_fetch;
  reads_back = λ b. fetch_reads_back b.version b.identity_pubkey b.nonce b.signature;
}

abbrev bodies : Bodies
bodies = record {
  deposit_body = toy_deposit;
  deposit_ok_body = toy_deposit_ok;
  challenge_body = toy_challenge;
  challenge_nonce_body = toy_nonce;
  fetch_body = toy_fetch;
  fetch_response_body = toy_response;
  delete_body = silent;
  delete_ok_body = silent;
  error_body = silent;
}

abbrev pub toy : Libraries
toy = record {
  crypto = crypto;
  fetch_tuple = λ version key nonce. some (version ∷ key ++ nonce);
  delete_tuple = λ version key nonce ids. some (version ∷ key ++ nonce);
  bodies = bodies;
}

abbrev pub nonce : Bytes
nonce = 5 ∷ []

abbrev pub key : Bytes
key = 7 ∷ []

abbrev pub issued : Challenges
issued = (nonce, record { identity_hash = key; issued_at = 10 }) ∷ []

abbrev pub payload : Bytes
payload = 1 ∷ 7 ∷ 5 ∷ []

abbrev pub signature_of : ℕ → Bytes
signature_of op = signing_input nonce op payload

accepted_fetch :
    (verify crypto issued nonce key (signature_of op_byte_fetch) op_byte_fetch payload 20).1 ≡ ok tt
unfolding verify get signing_input same
accepted_fetch = refl

verify_iff_example :
    ((verify crypto issued nonce key (signature_of op_byte_fetch) op_byte_fetch payload 20).1
      ≡ ok tt)
    ↔ Authentic crypto issued nonce key (signature_of op_byte_fetch) op_byte_fetch payload 20
verify_iff_example =
    verify_iff crypto issued nonce key (signature_of op_byte_fetch) op_byte_fetch payload 20

-- The nonce is used, then used again in vain, while another one is issued and the sweep runs.
abbrev used : Challenges
used = (verify crypto issued nonce key (signature_of op_byte_fetch) op_byte_fetch payload 20).0

abbrev later : Challenges
later =
    (verify crypto (sweep (issue used (6 ∷ []) key 21) 22).0 nonce key (signature_of op_byte_fetch)
      op_byte_fetch payload 23).0

later-Unissued : Unissued crypto nonce used later
later-Unissued =
    uses nonce key (signature_of op_byte_fetch) op_byte_fetch payload 23
      (sweeps 22 (issues (6 ∷ []) key 21 at_once (unfold same in refl)))

verify_once_example :
    (verify crypto later nonce key (signature_of op_byte_fetch) op_byte_fetch payload 24).1
    ≡ err (auth nonce_expired)
verify_once_example =
    verify_once crypto issued nonce key (signature_of op_byte_fetch) op_byte_fetch payload 20 later
      key (signature_of op_byte_fetch) op_byte_fetch payload 24 accepted_fetch later-Unissued

abbrev minute : ℕ
minute = 60

rate_limit_example :
    (acquire_all (new 6 100) (100 ∷ 200 ∷ [])).1 * token + 100 * 6 ≤ 6 * token + 200 * 6
rate_limit_example =
    rate_limit 6 100 (100 ∷ 200 ∷ [])
      ((let le : 100 ≤ 100 = omega arith in le), ((let le : 100 ≤ 200 = omega arith in le), tt))

abbrev ask : Challenge
ask = record { version = 1; identity_hash = key }

abbrev ask_bytes : Bytes
ask_bytes = 0 ∷ 0 ∷ 0 ∷ 3 ∷ 0x84 ∷ 1 ∷ 7 ∷ []

encode_ask : encode_frame bodies (challenge ask) (9 ∷ []) ≡ ok (9 ∷ ask_bytes)
unfolding encode_frame encode_body kind_byte put_frame to_be
encode_ask = refl
