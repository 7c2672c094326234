-- ===== src/Mailbox/Auth/Challenges.antt =====
-- The life of a challenge nonce.
use skattr.Base.{
  ℕ, ◌+◌, ◌≤◌, ◌≡◌, ◌↔◌, inl, inr, refl, ap, ◌∙◌, Bool, true, false, [], ◌∷◌, Bytes, arith, none,
  some, Bool-cases, Option-cases, if◌then◌else◌, same, same_iff, select,
}
use skattr.Mailbox.Failure.{ok, err, auth, nonce_expired}
use skattr.Mailbox.Auth.{
  Crypto, Issued, Challenges, get, remove, issue, verify, sweep, signing_input, challenge_ttl_secs,
}

pub get-remove_self : (n : Bytes) (c : Challenges) → get n (remove n c) ≡ none
unfolding get remove select
get-remove_self n [] = refl
get-remove_self n ((k, i) ∷ c) = ground (arith, get-remove_self n c)

get-remove_other : (n m : Bytes) (c : Challenges) → same n m ≡ false → get m (remove n c) ≡ get m c
unfolding get remove select
get-remove_other n m [] d = refl
get-remove_other n m ((k, i) ∷ c) d =
    ground (arith, get-remove_other n m c d, same_iff k n, same_iff k m)

-- A fresh nonce stands for the identity and the time of its issue, and the other nonces stay.
pub get-issue :
    (c : Challenges) (nonce m identity_hash : Bytes) (now : ℕ)
    → get m (issue c nonce identity_hash now) ≡ (
        if same nonce m
        then some (record { identity_hash = identity_hash; issued_at = now })
        else get m c)
unfolding issue get
get-issue c nonce m identity_hash now = elim (Bool-cases (same nonce m)) [
  | inl e ↦ rw (e, if◌then◌else◌)
  | inr e ↦ rw (e, if◌then◌else◌) (get-remove_other nonce m c e)
]

-- A key stands once in a hash map.
abbrev pub DistinctKeys : Challenges → Type 0
DistinctKeys [] = Unit {0}
DistinctKeys ((k, i) ∷ c) = (get k c ≡ none) × DistinctKeys c

pub get-select-none :
    (p : Bytes × Issued → Bool) (n : Bytes) (c : Challenges)
    → get n c ≡ none
    → get n (select p c) ≡ none
unfolding get select
get-select-none p n [] e = refl
get-select-none p n ((k, i) ∷ c) e = ground (arith, get-select-none p n c)

pub DistinctKeys-select :
    (p : Bytes × Issued → Bool) (c : Challenges) → DistinctKeys c → DistinctKeys (select p c)
unfolding select
DistinctKeys-select p [] u = tt
DistinctKeys-select p ((k, i) ∷ c) (a, u) = elim (Bool-cases (p (k, i))) [
  | inl e ↦ rw (e, if◌then◌else◌) (get-select-none p k c a, DistinctKeys-select p c u)
  | inr e ↦ rw (e, if◌then◌else◌) (DistinctKeys-select p c u)
]

pub DistinctKeys-issue :
    (c : Challenges) (nonce identity_hash : Bytes) (now : ℕ)
    → DistinctKeys c
    → DistinctKeys (issue c nonce identity_hash now)
unfolding issue
DistinctKeys-issue c nonce identity_hash now u =
    (get-remove_self nonce c, unfold remove in DistinctKeys-select _ c u)

module _ (crypto : Crypto) where
  -- What a signed request must show at time `now`.
  abbrev pub Authentic :
      Challenges
      → (nonce pubkey signature : Bytes) (op : ℕ) (payload_hash : Bytes) (now : ℕ) → Type 0
  Authentic c nonce pubkey signature op payload_hash now =
      (i : Issued) × (get nonce c ≡ some i)
      × (now ≤ i.issued_at + challenge_ttl_secs)
      × (crypto.sha256 pubkey ≡ i.identity_hash)
      × (crypto.is_key pubkey ≡ true)
      × (crypto.verifies pubkey (signing_input nonce op payload_hash) signature ≡ true)

  pub accepted :
      (c : Challenges) (nonce pubkey signature : Bytes) (op : ℕ) (payload_hash : Bytes) (now : ℕ)
      → (verify crypto c nonce pubkey signature op payload_hash now).1 ≡ ok tt
      → Authentic c nonce pubkey signature op payload_hash now
        × ((verify crypto c nonce pubkey signature op payload_hash now).0 ≡ remove nonce c)
  unfolding verify
  accepted c nonce pubkey signature op payload_hash now e = elim (Option-cases (get nonce c)) [
    | inl g ↦ absurd (ground arith)
    | inr (i, g) ↦
        let facts : (now ≤ i.issued_at + challenge_ttl_secs)
            × (crypto.sha256 pubkey ≡ i.identity_hash)
            × (crypto.is_key pubkey ≡ true)
            × (crypto.verifies pubkey (signing_input nonce op payload_hash) signature ≡ true) =
          ground (arith, same_iff (crypto.sha256 pubkey) i.identity_hash) in
        ((i, g, facts.0, facts.1, facts.2, facts.3), ground arith)
  ]

  -- `verify` accepts exactly the requests whose nonce was issued, at most 30 seconds ago, to the
  -- hash of the key that signed the request with that nonce.
  pub verify_iff :
      (c : Challenges) (nonce pubkey signature : Bytes) (op : ℕ) (payload_hash : Bytes) (now : ℕ)
      → ((verify crypto c nonce pubkey signature op payload_hash now).1 ≡ ok tt)
        ↔ Authentic c nonce pubkey signature op payload_hash now
  unfolding verify
  verify_iff c nonce pubkey signature op payload_hash now = (
    λ e. (accepted c nonce pubkey signature op payload_hash now e).0,
    λ a. ground (arith, a, same_iff (crypto.sha256 pubkey) a.0.identity_hash),
  )

  -- No call touches the other nonces, and a refused one keeps its nonce, unless that is too old.
  pub verify_keeps :
      (c : Challenges) (nonce m pubkey signature : Bytes) (op : ℕ) (payload_hash : Bytes) (now : ℕ)
      → same nonce m ≡ false
      → get m (verify crypto c nonce pubkey signature op payload_hash now).0 ≡ get m c
  unfolding verify
  verify_keeps c nonce m pubkey signature op payload_hash now d =
      ground (arith, get-remove_other nonce m c d)

  -- What becomes of the challenges while this nonce is not issued again: uses of any nonce, this one
  -- too, issues of others, and sweeps.
  pub data Unissued (nonce : Bytes) (c : Challenges) : Challenges → Type 0 where
    at_once : Unissued nonce c c
    uses :
        {c₁ : Challenges} (m pubkey signature : Bytes) (op : ℕ) (payload_hash : Bytes) (now : ℕ)
        → Unissued nonce c c₁
        → Unissued nonce c (verify crypto c₁ m pubkey signature op payload_hash now).0
    issues :
        {c₁ : Challenges} (m identity_hash : Bytes) (now : ℕ)
        → Unissued nonce c c₁
        → same m nonce ≡ false
        → Unissued nonce c (issue c₁ m identity_hash now)
    sweeps : {c₁ : Challenges} (now : ℕ) → Unissued nonce c c₁ → Unissued nonce c (sweep c₁ now).0

  absent-verify :
      (c : Challenges) (nonce pubkey signature : Bytes) (op : ℕ) (payload_hash : Bytes) (now : ℕ)
      → get nonce c ≡ none
      → verify crypto c nonce pubkey signature op payload_hash now ≡ (c, err (auth nonce_expired))
  unfolding verify
  absent-verify c nonce pubkey signature op payload_hash now g = rw (g, verify) refl

  stays_absent :
      (nonce : Bytes) (c c' : Challenges)
      → get nonce c ≡ none
      → Unissued nonce c c'
      → get nonce c' ≡ none
  unfolding sweep
  stays_absent nonce c _ g at_once = g
  stays_absent nonce c _ g (uses {c₁ = c₁} m pubkey signature op payload_hash now u) =
      let k = stays_absent nonce c c₁ g u in
      elim (Bool-cases (same m nonce)) [
        | inl e ↦
            ap (λ x. get nonce x.0)
              (absent-verify c₁ m pubkey signature op payload_hash now
                (ap (λ n. get n c₁) ((same_iff m nonce).0 e) ∙ k))
            ∙ k
        | inr d ↦ verify_keeps c₁ m nonce pubkey signature op payload_hash now d ∙ k
      ]
  stays_absent nonce c _ g (issues {c₁ = c₁} m identity_hash now u d) =
      get-issue c₁ m nonce identity_hash now ∙ rw (d, if◌then◌else◌) (stays_absent nonce c c₁ g u)
  stays_absent nonce c _ g (sweeps {c₁ = c₁} now u) =
      get-select-none _ nonce c₁ (stays_absent nonce c c₁ g u)

  -- After a request is accepted, every further use of its nonce is refused as expired, whatever
  -- is signed and whenever, and whatever uses of any nonce, issues of other nonces and sweeps
  -- come between, as long as this nonce is not issued again.
  pub verify_once :
      (c : Challenges) (nonce pubkey signature : Bytes) (op : ℕ) (payload_hash : Bytes) (now : ℕ)
      (later : Challenges) (pubkey' signature' : Bytes) (op' : ℕ) (payload_hash' : Bytes)
      (moment : ℕ)
      → (verify crypto c nonce pubkey signature op payload_hash now).1 ≡ ok tt
      → Unissued nonce (verify crypto c nonce pubkey signature op payload_hash now).0 later
      → (verify crypto later nonce pubkey' signature' op' payload_hash' moment).1
        ≡ err (auth nonce_expired)
  verify_once c nonce pubkey signature op payload_hash now later pubkey' signature' op'
        payload_hash' moment e u =
      ap (λ x. x.1)
        (absent-verify later nonce pubkey' signature' op' payload_hash' moment (
          stays_absent nonce _ later
            (ap (get nonce) (accepted c nonce pubkey signature op payload_hash now e).1
              ∙ get-remove_self nonce c)
            u))
