-- ===== src/Poller/Drained.antt =====
-- What polling a mailbox of this repository's server takes from it. No other connection changes the
-- stored deposits meanwhile.
use skattr.Base.{
  ℕ, ◌≡◌, refl, ap, ◌∙◌, sym, subst, inl, inr, ◌⊎◌, true, List, [], ◌∷◌, Bytes, length, map, arith,
  Bool-cases, if◌then◌else◌, same, same_iff, Has, Has-select, select,
}
use skattr.Base.Results.{Result, ok, err}
use skattr.Mailbox.Protocol.{PendingDeposit, FetchResponse, DeleteOk}
use skattr.Mailbox.Store.{Row, Table, StoredDeposit, is_for, to_stored}
use skattr.Mailbox.Store
use skattr.Mailbox.Store.Rows.{Unique, Unique-Has}
use skattr.Mailbox.Store.Reads.{fetch_iff, Has-map_inv}
use skattr.Mailbox.Store.Removal.{mentions, remains, delete_loop-table}
use skattr.Mailbox.Policy.{Policy}
use skattr.Mailbox.Dispatch.{State, Libraries, to_pending}
use skattr.Mailbox.Server.{Draw}
use skattr.Client.{ClientErrorKind, Identity, fetch_all, delete_ids}
use skattr.Client.Served.{Served, serve}
use skattr.Client.Deposits.{own_hash, Fetched, fetch_all-Fetched, delete_ids-Deleted}
use skattr.Poller.{
  InboundDispatch, dispatch, dispatch_all, on_deleted, delete_dispatched, on_fetched,
  poll_dispatch_once,
}

mentions-Has : (ids : List Bytes) (r : Row) → mentions ids r ≡ true → Has r.deposit_id ids
unfolding mentions
mentions-Has [] r e = cc
mentions-Has (id ∷ ids) r e = elim (Bool-cases (same r.deposit_id id)) [
  | inl k ↦ inl ((same_iff r.deposit_id id).0 k)
  | inr k ↦ inr (mentions-Has ids r (ground (arith, k, e)))
]

module _ {D : Type 0} (inbound : InboundDispatch D) where
  -- From one state of the pipeline to another by handing it ciphertexts, and nothing else.
  pub data Ran (x : D) : D → Type 0 where
    at_once : Ran x x
    then_one : {y : D} → Ran x y → (ciphertext : Bytes) → Ran x (dispatch inbound y ciphertext).0

  Ran-first :
      (x : D) (ciphertext : Bytes) (y : D) → Ran (dispatch inbound x ciphertext).0 y → Ran x y
  Ran-first x ciphertext _ at_once = then_one at_once ciphertext
  Ran-first x ciphertext _ (then_one {y} r c) = then_one (Ran-first x ciphertext y r) c

  -- The pipeline has taken the ciphertext on its way from `x` to `y`: what it was after that has gone
  -- into `y`.
  pub record Taken (x : D) (ciphertext : Bytes) (y : D) : Type 0 where
    pub before : D
    pub reached : Ran x before
    pub takes : (dispatch inbound before ciphertext).1 ≡ true
    pub later : Ran (dispatch inbound before ciphertext).0 y

  -- A deposit of the list with this id was taken.
  abbrev TakenFrom : D → List PendingDeposit → Bytes → D → Type 0
  TakenFrom x deposits id y =
      (dep : PendingDeposit) × Has dep deposits × (dep.deposit_id ≡ id) × Taken x dep.ciphertext y

  TakenFrom-cons :
      (x y : D) (dep : PendingDeposit) (deposits : List PendingDeposit) (id : Bytes)
      → TakenFrom (dispatch inbound x dep.ciphertext).0 deposits id y
      → TakenFrom x (dep ∷ deposits) id y
  TakenFrom-cons x y dep deposits id (d, m, e, t) = (
    d,
    inr m,
    e,
    record {
      before = t.before;
      reached = Ran-first x dep.ciphertext t.before t.reached;
      takes = t.takes;
      later = t.later;
    },
  )

  dispatch_all-Ran :
      (x : D) (deposits : List PendingDeposit) → Ran x (dispatch_all inbound x deposits).0
  unfolding dispatch_all
  dispatch_all-Ran x [] = at_once
  dispatch_all-Ran x (dep ∷ deposits) =
      Ran-first x dep.ciphertext _ (dispatch_all-Ran (dispatch inbound x dep.ciphertext).0 deposits)

  dispatch_all-Taken :
      (x : D) (deposits : List PendingDeposit) (id : Bytes)
      → Has id (dispatch_all inbound x deposits).1
      → TakenFrom x deposits id (dispatch_all inbound x deposits).0
  unfolding dispatch_all
  dispatch_all-Taken x [] id h = absurd h
  dispatch_all-Taken x (dep ∷ deposits) id h =
      let x₁ = (dispatch inbound x dep.ciphertext).0 in
      let y = (dispatch_all inbound x₁ deposits).0 in
      let rest = λ (k : Has id (dispatch_all inbound x₁ deposits).1).
        TakenFrom-cons x y dep deposits id (dispatch_all-Taken x₁ deposits id k) in
      elim (Bool-cases (dispatch inbound x dep.ciphertext).1) [
        | inl taken ↦
            first y (dispatch_all-Ran x₁ deposits) _ taken (rw (taken, if◌then◌else◌) at h) rest
        | inr left ↦ rest (rw (left, if◌then◌else◌) at h)
      ]
    where
      first :
          (y : D)
          → Ran (dispatch inbound x dep.ciphertext).0 y
          → (ids : List Bytes) → (dispatch inbound x dep.ciphertext).1 ≡ true
          → Has id (dep.deposit_id ∷ ids)
          → (Has id ids → TakenFrom x (dep ∷ deposits) id y)
          → TakenFrom x (dep ∷ deposits) id y
      first y ran ids taken (inl e) rest = (
        dep,
        inl refl,
        sym e,
        record { before = x; reached = at_once; takes = taken; later = ran },
      )
      first y ran ids taken (inr k) rest = rest k

  module _ (p : Policy) (libs : Libraries) (identity : Identity) where
    abbrev h : Bytes
    h = own_hash p libs identity

    -- The row is still there, or it is one's own and its ciphertext was taken.
    abbrev pub KeptOrTaken : D → Row → Table → D → Type 0
    KeptOrTaken x r t y =
        Has r t ⊎ ((r.recipient_hash ≡ libs.crypto.sha256 identity.public) × Taken x r.ciphertext y)

    fetched_row :
        (t : Table) (now : ℕ) (dep : PendingDeposit)
        → Has dep (map to_pending (Store.fetch t h now))
        → (c : Row) × Has c t × (dep ≡ to_pending (to_stored c))
    fetched_row t now dep m =
        let (sd, (k, e)) = Has-map_inv to_pending dep (Store.fetch t h now) m in
        let (c, found) = (fetch_iff t h now sd).0 k in (c, found.0, e ∙ ap to_pending found.1.1.1)

    mentioned-Taken :
        (t : Table) (now : ℕ) (resp : FetchResponse) (x : D) (r : Row)
        → Unique t
        → Has r t
        → resp.deposits ≡ map to_pending (Store.fetch t h now)
        → mentions (dispatch_all inbound x resp.deposits).1 r ≡ true
        → Taken x r.ciphertext (dispatch_all inbound x resp.deposits).0
    mentioned-Taken t now resp x r u m e k =
        let (dep, i, f, taken) =
          dispatch_all-Taken x resp.deposits r.deposit_id (mentions-Has _ r k) in
        let (c, j, g) = fetched_row t now dep (subst (Has dep) e i) in
        let one : r ≡ c =
          Unique-Has r c t u m j
            ((same_iff r.deposit_id c.deposit_id).1 (sym f ∙ ap (λ d. d.deposit_id) g)) in
        subst (λ c. Taken x c (dispatch_all inbound x resp.deposits).0)
          (ap (λ d. d.ciphertext) g ∙ ap (λ z. z.ciphertext) (sym one)) taken

    on_deleted-state :
        (x : D) (n : ℕ) (w : Served) (r : Result ClientErrorKind DeleteOk)
        → (on_deleted inbound (serve p libs) libs identity x n (w, r)).0.0 ≡ w
    unfolding on_deleted
    on_deleted-state x n w (ok b) = refl
    on_deleted-state x n w (err e) = refl

    on_deleted-pipeline :
        (x : D) (n : ℕ) (w : Served) (r : Result ClientErrorKind DeleteOk)
        → (on_deleted inbound (serve p libs) libs identity x n (w, r)).0.1 ≡ x
    unfolding on_deleted
    on_deleted-pipeline x n w (ok b) = refl
    on_deleted-pipeline x n w (err e) = refl

    delete-table :
        (t : Table) (ids : List Bytes) → (Store.delete t h ids).0 ≡ select (remains h ids) t
    unfolding Store.delete
    delete-table t ids = delete_loop-table h ids t 0

    delete_dispatched-KeptOrTaken :
        (s : State) (ds : List Draw) (start x : D) (ids : List Bytes) (r : Row)
        → Has r s.deposits
        → (mentions ids r ≡ true → Taken start r.ciphertext x)
        → KeptOrTaken start r
            (delete_dispatched inbound (serve p libs) libs identity (s, ds) (x, ids)).0.0.0.deposits
            (delete_dispatched inbound (serve p libs) libs identity (s, ds) (x, ids)).0.1
    unfolding delete_dispatched
    delete_dispatched-KeptOrTaken s ds start x [] r m taken = inl m
    delete_dispatched-KeptOrTaken s ds start x (id ∷ ids) r m taken =
        let call = delete_ids (serve p libs) libs identity (id ∷ ids) (s, ds) in
        let out =
          ap (λ (w : Served). w.0.deposits)
            (on_deleted-state x (length (id ∷ ids)) call.0 call.1) in
        elim (delete_ids-Deleted p libs identity (id ∷ ids) s ds) [
          | inl kept ↦ inl (subst (Has r) (sym (out ∙ kept)) m)
          | inr gone ↦
              let table = out ∙ gone ∙ delete-table s.deposits (id ∷ ids) in
              elim (Bool-cases (remains h (id ∷ ids) r)) [
                | inl stays ↦ inl (
                    subst (Has r) (sym table)
                      (Has-select (remains h (id ∷ ids)) r s.deposits stays m))
                | inr goes ↦ inr (
                  (same_iff r.recipient_hash h).0 (ground (arith, goes)),
                  subst (Taken start r.ciphertext)
                      (sym (on_deleted-pipeline x (length (id ∷ ids)) call.0 call.1))
                      (taken (ground (arith, goes))),
                )
              ]
        ]

    on_fetched-KeptOrTaken :
        (s : State) (x : D) (r : Row) (fr : Served × Result ClientErrorKind FetchResponse)
        → Unique s.deposits
        → Has r s.deposits
        → Fetched p libs identity s fr
        → KeptOrTaken x r
            (on_fetched inbound (serve p libs) libs identity x fr).0.0.0.deposits
            (on_fetched inbound (serve p libs) libs identity x fr).0.1
    unfolding on_fetched
    on_fetched-KeptOrTaken s x r ((s', ds), err e) u m (kept, _) = inl (subst (Has r) (sym kept) m)
    on_fetched-KeptOrTaken s x r ((s', ds), ok resp) u m (kept, (now, e)) =
        let found = dispatch_all inbound x resp.deposits in
        delete_dispatched-KeptOrTaken s' ds x found.0 found.1 r (subst (Has r) (sym kept) m)
          (λ k. mentioned-Taken s.deposits now resp x r u m e k)

    -- Whatever the server draws, answers or refuses, and wherever the connection breaks, a deposit
    -- that was stored is stored after the poll, or it was addressed to the poller and its pipeline
    -- has taken the ciphertext on the way to the state that it has after the poll.
    pub poll_no_loss :
        (s : State) (ds : List Draw) (x : D) (r : Row)
        → Unique s.deposits
        → Has r s.deposits
        → KeptOrTaken x r
            (poll_dispatch_once inbound (serve p libs) libs identity (s, ds) x).0.0.0.deposits
            (poll_dispatch_once inbound (serve p libs) libs identity (s, ds) x).0.1
    unfolding poll_dispatch_once
    poll_no_loss s ds x r u m =
        on_fetched-KeptOrTaken s x r (fetch_all (serve p libs) libs identity (s, ds)) u m
          (fetch_all-Fetched p libs identity s ds)
