-- ===== src/Client/Deposits.antt =====
-- What a client of this repository's server does to the stored deposits, whatever comes of it.
use skattr.Base.{
  ℕ, ◌≡◌, refl, ap, ◌∙◌, sym, subst, inl, inr, ◌⊎◌, Bool, List, [], ◌∷◌, Bytes, map, Option-cases,
}
use skattr.Base.Results
use skattr.Mailbox.Protocol.{protocol_version, Fetch, Delete, FetchResponse}
use skattr.Mailbox.Failure.{Result, ok, err}
use skattr.Mailbox.Store.{Table}
use skattr.Mailbox.Store
use skattr.Mailbox.Codec.{MailboxFrame, challenge_nonce, fetch, fetch_response, delete}
use skattr.Mailbox.Auth.{signing_input, op_byte_delete}
use skattr.Mailbox.Policy.{Policy}
use skattr.Mailbox.Dispatch.{State, Libraries, to_pending, handle_fetch, handle_delete, error_frame}
use skattr.Mailbox.Dispatch.Authorised.{fetch_authorised, delete_authorised}
use skattr.Mailbox.Dispatch.Errors.{fetch-SameOnError, delete-SameOnError, answers_or_keeps}
use skattr.Mailbox.Server.{Draw, handle, to_send, send, turn}
use skattr.Client.{
  ClientErrorKind, unreachable, Exchange, answered, Identity, expect, as_nonce, as_fetch_response,
  fetch_all, delete_ids, request_nonce,
}
use skattr.Client.Served.{Served, reply, arrive, serve, serve-cases, send-cases, reply-deposits}
use skattr.Client.Answered.{arrive-challenge, challenged, challenge_request, fetch_request}

module _ (p : Policy) (libs : Libraries) (identity : Identity) where
  abbrev pub own_hash : Bytes
  own_hash = libs.crypto.sha256 identity.public

  -- A result of a fetch from the table: an error, or what the table had at some time.
  abbrev pub FetchedFrom : Table → Results.Result ClientErrorKind FetchResponse → Type 0
  FetchedFrom t (Results.err e) = Unit {0}
  FetchedFrom t (Results.ok resp) =
      (now : ℕ) × (resp.deposits ≡ map to_pending (Store.fetch t own_hash now))

  abbrev pub Fetched : State → Served × Results.Result ClientErrorKind FetchResponse → Type 0
  Fetched s ((s', ds), r) = (s'.deposits ≡ s.deposits) × FetchedFrom s.deposits r

  expect-fetch :
      (t : Table) (now : ℕ) (r : Result MailboxFrame)
      → ((f : MailboxFrame)
          → r ≡ ok f
          → f ≡ fetch_response (record { deposits = map to_pending (Store.fetch t own_hash now) }))
      → FetchedFrom t (expect as_fetch_response (answered (to_send r)))
  unfolding expect to_send error_frame
  expect-fetch t now (err e) h = tt
  expect-fetch t now (ok f) h =
      subst (λ g. FetchedFrom t (expect as_fetch_response (answered g))) (sym (h f refl))
        (now, refl)

  reply-FetchedFrom :
      (t : Table) (s : State) (ds : List Draw) (hangs_up : Bool) (f : MailboxFrame)
      → FetchedFrom t (expect as_fetch_response (answered f))
      → FetchedFrom t (expect as_fetch_response (reply s ds (send p libs hangs_up f)).1)
  unfolding expect
  reply-FetchedFrom t s ds hangs_up f h = elim (send-cases p libs hangs_up f) [
    | inl e ↦ rw e h
    | inr e ↦ rw e tt
  ]

  arrive-fetch_keeps :
      (s : State) (ds : List Draw) (f : Fetch)
      → f.identity_pubkey ≡ identity.public
      → ((arrive p libs (s, ds) (fetch f)).0.0.deposits ≡ s.deposits)
        × FetchedFrom s.deposits (expect as_fetch_response (arrive p libs (s, ds) (fetch f)).1)
  unfolding arrive turn handle
  arrive-fetch_keeps s [] f own = (refl, unfold expect in tt)
  arrive-fetch_keeps s (d ∷ ds) f own =
      let m = handle_fetch libs f d.now d.now_us in
      let inverted = λ (g : MailboxFrame) (e : (m s).1 ≡ ok g).
        fetch_authorised libs f d.now d.now_us s (m s).0 g (λ i. ((m s).0, e i)) in
      (
        ap (λ (x : State). x.deposits)
              (reply-deposits (m s).0 ds (send p libs d.hangs_up (to_send (m s).1)))
            ∙ elim (answers_or_keeps libs m s (fetch-SameOnError libs f d.now d.now_us)) [
              | inl (g, e) ↦ (inverted g e).1
              | inr k ↦ k
            ],
        reply-FetchedFrom s.deposits (m s).0 ds d.hangs_up (to_send (m s).1) (
            expect-fetch s.deposits d.now (m s).1 (λ g e.
              (inverted g e).2
              ∙ ap
                  (λ key. fetch_response (record {
                    deposits =
                        map to_pending (Store.fetch s.deposits (libs.crypto.sha256 key) d.now);
                  }))
                  own)),
      )

  serve-fetch_keeps :
      (s : State) (ds : List Draw) (f : Fetch)
      → f.identity_pubkey ≡ identity.public
      → ((serve p libs (s, ds) (fetch f)).0.0.deposits ≡ s.deposits)
        × FetchedFrom s.deposits (expect as_fetch_response (serve p libs (s, ds) (fetch f)).1)
  serve-fetch_keeps s ds f own = elim (serve-cases p libs (s, ds) (fetch f)) [
    | inl e ↦ rw e (arrive-fetch_keeps s ds f own)
    | inr e ↦ unfold expect in rw e (refl, tt)
  ]

  -- The deletion of the ids, or no change.
  abbrev pub Deleted : Table → List Bytes → Table → Type 0
  Deleted t ids t' = (t' ≡ t) ⊎ (t' ≡ (Store.delete t own_hash ids).0)

  arrive-delete_changes :
      (s : State) (ds : List Draw) (b : Delete)
      → b.identity_pubkey ≡ identity.public
      → Deleted s.deposits b.deposit_ids (arrive p libs (s, ds) (delete b)).0.0.deposits
  unfolding arrive turn handle
  arrive-delete_changes s [] b own = inl refl
  arrive-delete_changes s (d ∷ ds) b own =
      let m = handle_delete libs p b d.now in
      subst (λ (x : State). Deleted s.deposits b.deposit_ids x.deposits)
        (sym (reply-deposits (m s).0 ds (send p libs d.hangs_up (to_send (m s).1))))
        (elim (answers_or_keeps libs m s (delete-SameOnError libs p b d.now)) [
          | inl (g, e) ↦ inr (
              (delete_authorised libs p b d.now s (m s).0 g (λ i. ((m s).0, e i))).1
              ∙ ap (λ key. (Store.delete s.deposits (libs.crypto.sha256 key) b.deposit_ids).0) own)
          | inr k ↦ inl k
        ])

  serve-delete_changes :
      (s : State) (ds : List Draw) (b : Delete)
      → b.identity_pubkey ≡ identity.public
      → Deleted s.deposits b.deposit_ids (serve p libs (s, ds) (delete b)).0.0.deposits
  serve-delete_changes s ds b own = elim (serve-cases p libs (s, ds) (delete b)) [
    | inl e ↦ rw e (arrive-delete_changes s ds b own)
    | inr e ↦ rw e (inl refl)
  ]

  abbrev nonce_of : Draw → MailboxFrame
  nonce_of d = challenge_nonce (record { nonce = d.random; issued_at = d.now })

  -- The answer to a challenge is a nonce or an error, and the deposits stay.
  abbrev Asked : State → Served × Results.Result ClientErrorKind Bytes → Type 0
  Asked s a =
      (s' : State) × (ds' : List Draw) × (s'.deposits ≡ s.deposits)
      × (((nonce : Bytes) × (a ≡ ((s', ds'), Results.ok nonce)))
          ⊎ ((e : ClientErrorKind) × (a ≡ ((s', ds'), Results.err e))))

  abbrev asked_of : Served × Exchange → Served × Results.Result ClientErrorKind Bytes
  asked_of (w, x) = (w, expect as_nonce x)

  arrived :
      (s : State) (ds : List Draw)
      → Asked s (asked_of (arrive p libs (s, ds) (challenge_request p libs identity)))
  unfolding expect
  arrived s [] = unfold arrive in (s, [], refl, inr (unreachable, refl))
  arrived s (d ∷ ds) =
      rw (arrive-challenge p libs s d ds own_hash)
        (elim (send-cases p libs d.hangs_up (nonce_of d)) [
          | inr gone ↦ rw gone (challenged p libs s d own_hash, [], refl, inr (unreachable, refl))
          | inl sent ↦ rw sent (challenged p libs s d own_hash, ds, refl, inl (d.random, refl))
        ])

  asked : (s : State) (ds : List Draw) → Asked s (request_nonce (serve p libs) own_hash (s, ds))
  unfolding request_nonce expect
  asked s ds = elim (serve-cases p libs (s, ds) (challenge_request p libs identity)) [
    | inl e ↦ rw e (arrived s ds)
    | inr e ↦ rw e (s, ds, refl, inr (unreachable, refl))
  ]

  -- However a fetch ends, the stored deposits stay, and what it gives is what the table has for the
  -- hash of the key.
  pub fetch_all-Fetched :
      (s : State) (ds : List Draw) → Fetched s (fetch_all (serve p libs) libs identity (s, ds))
  unfolding fetch_all expect
  fetch_all-Fetched s ds =
      let (s', ds', kept, answer) = asked s ds in
      elim answer [
        | inr (e, failed) ↦ rw failed (kept, tt)
        | inl (nonce, got) ↦
            elim (Option-cases (libs.fetch_tuple protocol_version identity.public nonce)) [
              | inl none_encoded ↦ rw (got, none_encoded) (kept, tt)
              | inr (buf, e) ↦
                  rw (got, e)
                    (subst
                      (λ t.
                        ((serve p libs (s', ds')
                            (fetch_request p libs identity nonce buf)).0.0.deposits
                          ≡ t)
                        × FetchedFrom t (
                            expect as_fetch_response
                              (serve p libs (s', ds') (fetch_request p libs identity nonce buf)).1))
                      kept (serve-fetch_keeps s' ds' _ refl))
            ]
      ]

  abbrev delete_request : List Bytes → Bytes → Bytes → Delete
  delete_request ids nonce buf = record {
    version = protocol_version;
    identity_pubkey = identity.public;
    nonce = nonce;
    signature = identity.sign (signing_input nonce op_byte_delete (libs.crypto.sha256 buf));
    deposit_ids = ids;
  }

  -- However a deletion ends, the table is that of the deletion, or as it was.
  pub delete_ids-Deleted :
      (ids : List Bytes) (s : State) (ds : List Draw)
      → Deleted s.deposits ids (delete_ids (serve p libs) libs identity ids (s, ds)).0.0.deposits
  unfolding delete_ids expect
  delete_ids-Deleted ids s ds =
      let (s', ds', kept, answer) = asked s ds in
      elim answer [
        | inr (e, failed) ↦ rw failed (inl kept)
        | inl (nonce, got) ↦
            elim (Option-cases (libs.delete_tuple protocol_version identity.public nonce ids)) [
              | inl none_encoded ↦ rw (got, none_encoded) (inl kept)
              | inr (buf, e) ↦
                  rw (got, e)
                    (subst
                      (λ t.
                        Deleted t ids
                          (serve p libs (s', ds')
                            (delete (delete_request ids nonce buf))).0.0.deposits)
                      kept (serve-delete_changes s' ds' (delete_request ids nonce buf) refl))
            ]
      ]
