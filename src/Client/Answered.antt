-- ===== src/Client/Answered.antt =====
-- What the client gets from the server: fetching and deleting with a key of its own succeed.
use skattr.Base.{ℕ, ◌+◌, ◌≤◌, ◌≡◌, refl, ◌∙◌, true, List, ◌∷◌, some, Bytes, map, same_refl}
use skattr.Base.Results
use skattr.Mailbox.Protocol.{protocol_version}
use skattr.Mailbox.Failure.{ok}
use skattr.Mailbox.Store
use skattr.Mailbox.Auth.{
  Challenges, issue, verify, signing_input, op_byte_fetch, challenge_ttl_secs,
}
use skattr.Mailbox.Auth.Challenges.{verify_iff, get-issue}
use skattr.Mailbox.Codec.{MailboxFrame, challenge, challenge_nonce, fetch, fetch_response}
use skattr.Mailbox.Policy.{Policy, try_acquire}
use skattr.Mailbox.Dispatch.{
  State, Libraries, check_version, take_fetch, check_signature, to_pending, handle_challenge,
  handle_fetch,
}
use skattr.Mailbox.Server.{Draw, handle, to_send, send, turn}
use skattr.Client.{Identity, expect, fetch_all, request_nonce}
use skattr.Client.Served.{reply, arrive, serve, Encoded, serve-arrive}

module _ (p : Policy) (libs : Libraries) where
  abbrev pub challenged : State → Draw → Bytes → State
  challenged s d h = record s { challenges = issue s.challenges d.random h d.now }

  pub arrive-challenge :
      (s : State) (d : Draw) (ds : List Draw) (h : Bytes)
      → arrive p libs
          (s, d ∷ ds)
          (challenge (record { version = protocol_version; identity_hash = h }))
        ≡ reply (challenged s d h) ds (
            send p libs d.hangs_up
              (challenge_nonce (record { nonce = d.random; issued_at = d.now })))
  unfolding arrive turn handle handle_challenge check_version to_send
  arrive-challenge s d ds h = refl

  abbrev checked : State → Bytes → Bytes → Bytes → ℕ → Bytes → ℕ → Challenges
  checked s nonce key signature op buf now =
      (verify libs.crypto s.challenges nonce key signature op (libs.crypto.sha256 buf) now).0

  arrive-fetch :
      (s : State) (d : Draw) (ds : List Draw) (key nonce signature buf : Bytes)
      → (try_acquire s.conn_rl.fetches d.now_us).1 ≡ ok tt
      → libs.fetch_tuple protocol_version key nonce ≡ some buf
      → (verify libs.crypto s.challenges nonce key signature op_byte_fetch
          (libs.crypto.sha256 buf)
          d.now).1
        ≡ ok tt
      → (s' : State) × (s'.deposits ≡ s.deposits)
        × (arrive p libs
              (s, d ∷ ds)
              (fetch (record {
                version = protocol_version;
                identity_pubkey = key;
                nonce = nonce;
                signature = signature;
              }))
            ≡ reply s' ds (
                send p libs d.hangs_up (
                  fetch_response (record {
                    deposits =
                        map to_pending (Store.fetch s.deposits (libs.crypto.sha256 key) d.now);
                  }))))
  unfolding arrive turn handle handle_fetch check_version take_fetch check_signature to_send
  arrive-fetch s d ds key nonce signature buf granted tuple verified = (
    record {
      deposits = s.deposits;
      challenges = checked s nonce key signature op_byte_fetch buf d.now;
      conn_rl = record {
        deposits = s.conn_rl.deposits;
        fetches = (try_acquire s.conn_rl.fetches d.now_us).0;
      };
      global_rl = s.global_rl;
    },
    refl,
    rw (granted, tuple, verified) refl,
  )

  -- A fresh nonce, signed by the key that it was asked for, is accepted for thirty seconds.
  fresh-verify :
      (c : Challenges) (nonce key signature digest : Bytes) (op issued now : ℕ)
      → libs.crypto.is_key key ≡ true
      → libs.crypto.verifies key (signing_input nonce op digest) signature ≡ true
      → now ≤ issued + challenge_ttl_secs
      → (verify libs.crypto
          (issue c nonce (libs.crypto.sha256 key) issued)
          nonce
          key
          signature
          op
          digest
          now).1
        ≡ ok tt
  fresh-verify c nonce key signature digest op issued now is_key signs soon =
      (verify_iff libs.crypto _ nonce key signature op digest now).1 (
        record { identity_hash = libs.crypto.sha256 key; issued_at = issued },
        get-issue c nonce nonce (libs.crypto.sha256 key) issued ∙ rw (same_refl nonce) refl,
        soon,
        refl,
        is_key,
        signs,
      )

  -- An identity whose key is accepted and whose signatures verify.
  pub record Genuine (identity : Identity) : Type 0 where
    pub is_key : libs.crypto.is_key identity.public ≡ true
    pub signs : (m : Bytes) → libs.crypto.verifies identity.public m (identity.sign m) ≡ true

  -- The frame gets through to the client: it can be encoded, and the client stays.
  abbrev pub Sent : Draw → MailboxFrame → Type 0
  Sent d f = send p libs d.hangs_up f ≡ some f

  -- What the client sends to fetch.
  abbrev pub challenge_request : Identity → MailboxFrame
  challenge_request identity =
      challenge
        (record { version = protocol_version; identity_hash = libs.crypto.sha256 identity.public })

  abbrev pub fetch_request : Identity → Bytes → Bytes → MailboxFrame
  fetch_request identity nonce buf = fetch (record {
    version = protocol_version;
    identity_pubkey = identity.public;
    nonce = nonce;
    signature = identity.sign (signing_input nonce op_byte_fetch (libs.crypto.sha256 buf));
  })

  -- A client with a key of its own that fetches within the rate limit, and asks within thirty
  -- seconds of the nonce, gets just the deposits stored for the hash of its key, if the requests can
  -- be encoded and both answers get through, and none is lost.
  pub fetch_all-Served :
      (identity : Identity) (s : State) (d e : Draw) (ds : List Draw) (buf : Bytes)
      → Genuine identity
      → libs.fetch_tuple protocol_version identity.public d.random ≡ some buf
      → (try_acquire s.conn_rl.fetches e.now_us).1 ≡ ok tt
      → e.now ≤ d.now + challenge_ttl_secs
      → Encoded libs (challenge_request identity)
      → Encoded libs (fetch_request identity d.random buf)
      → Sent d (challenge_nonce (record { nonce = d.random; issued_at = d.now }))
      → Sent e (
          fetch_response (record {
            deposits =
                map to_pending (Store.fetch s.deposits (libs.crypto.sha256 identity.public) e.now);
          }))
      → ((fetch_all (serve p libs) libs identity (s, d ∷ e ∷ ds)).1
          ≡ Results.ok (record {
            deposits =
                map to_pending (Store.fetch s.deposits (libs.crypto.sha256 identity.public) e.now);
          }))
        × ((fetch_all (serve p libs) libs identity (s, d ∷ e ∷ ds)).0.0.deposits ≡ s.deposits)
  unfolding fetch_all request_nonce expect
  fetch_all-Served identity s d e ds buf g tuple granted soon asks fetches challenge_sent
        fetch_sent =
      let h = libs.crypto.sha256 identity.public in
      let sig = identity.sign (signing_input d.random op_byte_fetch (libs.crypto.sha256 buf)) in
      let s₁ = challenged s d h in
      let v =
        fresh-verify s.challenges d.random identity.public sig (libs.crypto.sha256 buf)
          op_byte_fetch d.now e.now g.is_key (g.signs _) soon in
      let (s₂, kept, answer) =
        arrive-fetch s₁ e ds identity.public d.random sig buf granted tuple v in
      let asked =
        serve-arrive p libs (s, d ∷ e ∷ ds) (challenge_request identity) asks
        ∙ arrive-challenge s d (e ∷ ds) h in
      let fetched =
        serve-arrive p libs (s₁, e ∷ ds) (fetch_request identity d.random buf) fetches ∙ answer in
      (
        rw (asked, challenge_sent, tuple, fetched, fetch_sent) refl,
        rw (asked, challenge_sent, tuple, fetched, fetch_sent) kept,
      )
