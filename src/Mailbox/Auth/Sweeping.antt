-- ===== src/Mailbox/Auth/Sweeping.antt =====
-- `Challenges::sweep` against the requests that follow it.
use skattr.Base.{
  ℕ, ◌+◌, ◌≤◌, ◌≡◌, inl, inr, sym, ◌∙◌, subst, true, false, not, [], ◌∷◌, Bytes, arith, none, some,
  Bool-cases, Option-cases, same, same_iff, select, length, length-select-le,
}
use skattr.Mailbox.Failure.{err, auth, nonce_expired}
use skattr.Mailbox.Auth.{Crypto, Issued, Challenges, get, is_old, verify, sweep}
use skattr.Mailbox.Auth.Challenges.{get-select-none, DistinctKeys}

-- What the sweep leaves of a nonce.
get-sweep_old :
    (now : ℕ) (n : Bytes) (i : Issued) (c : Challenges)
    → DistinctKeys c
    → get n c ≡ some i
    → is_old now i ≡ true
    → get n (sweep c now).0 ≡ none
unfolding get sweep select
get-sweep_old now n i [] u g o = cc
get-sweep_old now n i ((k, j) ∷ c) (a, u) g o = elim (Bool-cases (same k n)) [
  | inl e ↦ ground (
    arith,
    get-select-none (λ x. not (is_old now x.1)) n c
        (subst (λ x. get x c ≡ none) ((same_iff k n).0 e) a),
  )
  | inr d ↦ ground (arith, get-sweep_old now n i c u)
]

get-sweep_fresh :
    (now : ℕ) (n : Bytes) (i : Issued) (c : Challenges)
    → get n c ≡ some i
    → is_old now i ≡ false
    → get n (sweep c now).0 ≡ some i
unfolding get sweep select
get-sweep_fresh now n i [] g o = cc
get-sweep_fresh now n i ((k, j) ∷ c) g o = ground (arith, get-sweep_fresh now n i c)

module _ (crypto : Crypto) where
  refused :
      (c : Challenges) (nonce pubkey signature : Bytes) (op : ℕ) (payload_hash : Bytes) (now : ℕ)
      → get nonce c ≡ none
      → (verify crypto c nonce pubkey signature op payload_hash now).1 ≡ err (auth nonce_expired)
  unfolding verify
  refused c nonce pubkey signature op payload_hash now e = rw (e, verify)

  too_old :
      (c : Challenges) (nonce pubkey signature : Bytes) (op : ℕ) (payload_hash : Bytes) (now : ℕ)
      (i : Issued)
      → get nonce c ≡ some i
      → is_old now i ≡ true
      → (verify crypto c nonce pubkey signature op payload_hash now).1 ≡ err (auth nonce_expired)
  unfolding verify
  too_old c nonce pubkey signature op payload_hash now i e o = ground arith

  -- The answer depends on the entry of the nonce alone.
  same_answer :
      (c c' : Challenges) (nonce pubkey signature : Bytes) (op : ℕ) (payload_hash : Bytes) (now : ℕ)
      (i : Issued)
      → get nonce c ≡ some i
      → get nonce c' ≡ some i
      → (verify crypto c nonce pubkey signature op payload_hash now).1
        ≡ (verify crypto c' nonce pubkey signature op payload_hash now).1
  unfolding verify
  same_answer c c' nonce pubkey signature op payload_hash now i e e' = ground arith

  -- The periodic sweep counts the nonces that it evicts and changes the fate of no request, now or
  -- later.
  pub sweep-verify :
      (c : Challenges) (nonce pubkey signature : Bytes) (op : ℕ) (payload_hash : Bytes)
      (now later : ℕ)
      → DistinctKeys c
      → now ≤ later
      → ((sweep c now).1 + length (sweep c now).0 ≡ length c)
        × ((verify crypto (sweep c now).0 nonce pubkey signature op payload_hash later).1
            ≡ (verify crypto c nonce pubkey signature op payload_hash later).1)
  sweep-verify c nonce pubkey signature op payload_hash now later u le = (
    unfold sweep in omega (arith, length-select-le (λ e. not (is_old now e.1)) c),
    elim (Option-cases (get nonce c)) [
      | inl e ↦
          refused (sweep c now).0 nonce pubkey signature op payload_hash later
            (unfold sweep in get-select-none (λ x. not (is_old now x.1)) nonce c e)
          ∙ sym (refused c nonce pubkey signature op payload_hash later e)
      | inr (i, e) ↦ elim (Bool-cases (is_old now i)) [
        | inl o ↦
            refused (sweep c now).0 nonce pubkey signature op payload_hash later
              (get-sweep_old now nonce i c u e o)
            ∙ sym (too_old c nonce pubkey signature op payload_hash later i e (ground (arith, o)))
        | inr f ↦
            same_answer (sweep c now).0 c nonce pubkey signature op payload_hash later i
              (get-sweep_fresh now nonce i c e f) e
      ]
    ],
  )
