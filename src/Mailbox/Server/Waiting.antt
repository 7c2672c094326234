-- ===== src/Mailbox/Server/Waiting.antt =====
-- A deposit that waits for its recipient while the server goes on.
use skattr.Base.{
  ℕ, ◌≤◌, ◌<◌, ◌≡◌, refl, sym, subst, ◌∙◌, inl, inr, true, false, not, Bytes, length, arith, Has,
  Has-select,
}
use skattr.Mailbox.Protocol.{Deposit, Challenge, Fetch, Delete}
use skattr.Mailbox.Failure.{Result, ok, err, policy, too_large, Result-cases}
use skattr.Mailbox.Store.{Row, insert, is_expired}
use skattr.Mailbox.Store
use skattr.Mailbox.Store.Removal.{remains, delete_loop-table}
use skattr.Mailbox.Store.Insert.{insert_ok}
use skattr.Mailbox.Auth
use skattr.Mailbox.Auth.{is_old}
use skattr.Mailbox.Auth.Challenges.{DistinctKeys-select}
use skattr.Mailbox.Policy.{Policy, resolve_ttl, ConnRateLimiter}
use skattr.Mailbox.Codec.{
  deposit, challenge, fetch, delete, deposit_ok, challenge_nonce, fetch_response, delete_ok, error,
}
use skattr.Mailbox.Dispatch.{
  State, Handler, after, ◌>>=◌, lift, check_version, take_deposit, take_global, store_row, within,
  handle_deposit, handle_challenge, Libraries, handle_fetch, handle_delete,
}
use skattr.Mailbox.Dispatch.Invariant.{
  Stored-select, BoundedConn, Inv, IsSane, Keeps, take_deposit-Keeps, take_global-Keeps,
  store_row-Keeps,
}
use skattr.Mailbox.Dispatch.Authorised.{fetch_authorised, delete_authorised}
use skattr.Mailbox.Dispatch.Errors.{answers_or_keeps, fetch-SameOnError, delete-SameOnError}
use skattr.Mailbox.Server.{Item, frame, malformed, Draw, handle, turn}
use skattr.Mailbox.Server.Reachable.{turn-Inv}

-- The request does not delete the row: it is no deletion, or one that lists another id or is signed
-- with another key.
abbrev pub Spares : Libraries → Row → Item → Type 0
Spares libs r (frame (delete b)) =
    remains (libs.crypto.sha256 b.identity_pubkey) b.deposit_ids r ≡ true
Spares libs r _ = Unit {0}

-- What the server does before the time `until`, on any of its connections, short of deleting the row.
pub data Meanwhile (p : Policy) (libs : Libraries) (r : Row) (until : ℕ)
    : State → State → Type 0 where
  at_once : {s : State} → Meanwhile p libs r until s s
  serves :
      {s s₁ : State} (item : Item) (d : Draw)
      → Meanwhile p libs r until s s₁
      → d.now < until
      → Spares libs r item
      → Meanwhile p libs r until s (turn p libs item d s₁).0
  expires :
      {s s₁ : State} (now : ℕ)
      → Meanwhile p libs r until s s₁
      → now < until
      → Meanwhile p libs r until s (record s₁ { deposits = (Store.expire_sweep s₁.deposits now).0 })
  forgets :
      {s s₁ : State} (now : ℕ)
      → Meanwhile p libs r until s s₁
      → Meanwhile p libs r until s (record s₁ { challenges = (Auth.sweep s₁.challenges now).0 })
  turns_to :
      {s s₁ : State} (c : ConnRateLimiter)
      → Meanwhile p libs r until s s₁
      → BoundedConn c
      → Meanwhile p libs r until s (record s₁ { conn_rl = c })

module _ (p : Policy) (r : Row) where
  abbrev Holds : {A : Type 0} → Handler A → Type 0
  Holds m = (s : State) → Inv p s → Has r s.deposits → Has r (m s).0.deposits

  bind-Holds :
      {A B : Type 0} (m : Handler A) (f : A → Handler B)
      → Keeps p m
      → Holds m
      → ((a : A) → Holds (f a))
      → Holds (m >>= f)
  bind-Holds {A} m f keep hold rest s i h = go (m s) (keep s i) (hold s i h)
    where
      go : (x : State × Result A) → Inv p x.0 → Has r x.0.deposits → Has r (after x f).0.deposits
      go (s₁, ok a) k j = rest a s₁ k j
      go (s₁, err y) k j = j

  lift-Holds :
      {A B : Type 0} (x : Result A) (f : A → Handler B)
      → ((a : A) → x ≡ ok a → Holds (f a))
      → Holds (lift x >>= f)
  lift-Holds (ok a) f rest s i h = rest a refl s i h
  lift-Holds (err e) f rest s i h = h

  store_row-Holds :
      (new : Row) (now : ℕ)
      → IsSane p
      → length new.ciphertext ≤ p.max_deposit_size
      → is_expired now r ≡ false
      → Holds (store_row p new now)
  unfolding store_row
  store_row-Holds new now sane small live s i h =
      elim (Result-cases (
        insert s.deposits new p.recipient_cap_bytes p.global_storage_cap_bytes p.max_recipients
          now)) [
            | inl (t, e) ↦
                let (u, total, few) = i.stored in
                let kept =
                  (insert_ok s.deposits t new p.recipient_cap_bytes p.global_storage_cap_bytes
                    p.max_recipients now u (omega (arith, sane, small, total)) few e).1 in
                rw (e, store_row) (kept r h live)
            | inr (y, e) ↦ rw (e, store_row) h
          ]

  handle_deposit-Holds :
      (b : Deposit) (id : Bytes) (now now_us : ℕ)
      → IsSane p
      → is_expired now r ≡ false
      → Holds (handle_deposit p b id now now_us)
  unfolding handle_deposit take_deposit take_global
  handle_deposit-Holds b id now now_us sane live = lift-Holds (check_version b.version) _ (λ _ _.
      lift-Holds (within (length b.ciphertext) p.max_deposit_size (policy too_large)) _ (λ _ w.
        bind-Holds (take_deposit now_us) _ (take_deposit-Keeps p now_us) (λ s i h. h)
          (λ _.
            bind-Holds (take_global now_us) _ (take_global-Keeps p now_us) (λ s i h. h)
              (λ _. lift-Holds (resolve_ttl p b.ttl_request) _ (λ ttl _.
                bind-Holds (store_row p _ now) _ (store_row-Keeps p _ now sane (ground (arith, w)))
                  (store_row-Holds _ now sane (ground (arith, w)) live) (λ _ s i h. h))))))

  handle_challenge-Holds :
      (b : Challenge) (nonce : Bytes) (now : ℕ) → Holds (handle_challenge b nonce now)
  unfolding handle_challenge
  handle_challenge-Holds b nonce now = lift-Holds (check_version b.version) _ (λ _ _ s i h. h)

module _ (p : Policy) (libs : Libraries) (r : Row) where
  handle_fetch-Holds : (b : Fetch) (now now_us : ℕ) → Holds p r (handle_fetch libs b now now_us)
  handle_fetch-Holds b now now_us s i h =
      let m = handle_fetch libs b now now_us in
      elim (answers_or_keeps libs m s (fetch-SameOnError libs b now now_us)) [
        | inl (g, e) ↦
            subst (Has r)
              (sym (fetch_authorised libs b now now_us s (m s).0 g (λ i. ((m s).0, e i))).1) h
        | inr k ↦ subst (Has r) (sym k) h
      ]

  handle_delete-Holds :
      (b : Delete) (now : ℕ)
      → remains (libs.crypto.sha256 b.identity_pubkey) b.deposit_ids r ≡ true
      → Holds p r (handle_delete libs p b now)
  unfolding Store.delete
  handle_delete-Holds b now spared s i h =
      let m = handle_delete libs p b now in
      let key = libs.crypto.sha256 b.identity_pubkey in
      elim (answers_or_keeps libs m s (delete-SameOnError libs p b now)) [
        | inl (g, e) ↦
            subst (Has r)
              (sym (
                (delete_authorised libs p b now s (m s).0 g (λ i. ((m s).0, e i))).1
                ∙ delete_loop-table key b.deposit_ids s.deposits 0))
              (Has-select (remains key b.deposit_ids) r s.deposits spared h)
        | inr k ↦ subst (Has r) (sym k) h
      ]

  turn-Holds :
      (item : Item) (d : Draw) (s : State)
      → IsSane p
      → is_expired d.now r ≡ false
      → Spares libs r item
      → Inv p s
      → Has r s.deposits
      → Has r (turn p libs item d s).0.deposits
  unfolding turn handle
  turn-Holds (malformed kind) d s sane live spared i h = h
  turn-Holds (frame (deposit b)) d s sane live spared i h =
      handle_deposit-Holds p r b d.random d.now d.now_us sane live s i h
  turn-Holds (frame (challenge b)) d s sane live spared i h =
      handle_challenge-Holds p r b d.random d.now s i h
  turn-Holds (frame (fetch b)) d s sane live spared i h = handle_fetch-Holds b d.now d.now_us s i h
  turn-Holds (frame (delete b)) d s sane live spared i h = handle_delete-Holds b d.now spared s i h
  turn-Holds (frame (deposit_ok b)) d s sane live spared i h = h
  turn-Holds (frame (challenge_nonce b)) d s sane live spared i h = h
  turn-Holds (frame (fetch_response b)) d s sane live spared i h = h
  turn-Holds (frame (delete_ok b)) d s sane live spared i h = h
  turn-Holds (frame (error b)) d s sane live spared i h = h

  -- Until its expiry a row stays, whatever else is deposited, fetched and deleted, and the invariant
  -- holds with it.
  pub Meanwhile-Has :
      (s s' : State)
      → IsSane p
      → Inv p s
      → Has r s.deposits
      → Meanwhile p libs r r.expires_at s s'
      → Inv p s' × Has r s'.deposits
  unfolding Store.expire_sweep Auth.sweep
  Meanwhile-Has s _ sane i h at_once = (i, h)
  Meanwhile-Has s _ sane i h (serves {s₁ = s₁} item d m early spared) =
      let (j, k) = Meanwhile-Has s s₁ sane i h m in
      (
        turn-Inv p libs item d s₁ sane j,
        turn-Holds item d s₁ sane (ground (arith, early)) spared j k,
      )
  Meanwhile-Has s _ sane i h (expires {s₁ = s₁} now m early) =
      let (j, k) = Meanwhile-Has s s₁ sane i h m in
      (
        record {
          stored = Stored-select p (λ x. not (is_expired now x)) s₁.deposits j.stored;
          nonces = j.nonces;
          conn = j.conn;
          global = j.global;
        },
        Has-select (λ x. not (is_expired now x)) r s₁.deposits (ground (arith, early)) k,
      )
  Meanwhile-Has s _ sane i h (forgets {s₁ = s₁} now m) =
      let (j, k) = Meanwhile-Has s s₁ sane i h m in
      (
        record {
          stored = j.stored;
          nonces = DistinctKeys-select (λ e. not (is_old now e.1)) s₁.challenges j.nonces;
          conn = j.conn;
          global = j.global;
        },
        k,
      )
  Meanwhile-Has s _ sane i h (turns_to {s₁ = s₁} c m b) =
      let (j, k) = Meanwhile-Has s s₁ sane i h m in
      (record { stored = j.stored; nonces = j.nonces; conn = b; global = j.global }, k)
