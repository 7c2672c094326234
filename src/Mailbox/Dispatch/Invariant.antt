-- ===== src/Mailbox/Dispatch/Invariant.antt =====
-- What every handler preserves of the state of the server.
use skattr.Base.{
  ℕ, ◌+◌, ◌^◌, ◌≤◌, ◌<◌, ◌≡◌, refl, inl, inr, Bool, Bytes, length, arith, select, same, not, subst,
  sym,
}
use skattr.Mailbox.Protocol.{Deposit, Challenge, Fetch, Delete}
use skattr.Mailbox.Failure.{Result, ok, err, policy, too_large, too_many_delete_ids, Result-cases}
use skattr.Mailbox.Store.{Row, Table, insert, sum_bytes, distinct_recipients}
use skattr.Mailbox.Store
use skattr.Mailbox.Store.Rows.{Unique, Unique-select, sum_bytes-select-le}
use skattr.Mailbox.Store.Recipients.{distinct_recipients-select-le}
use skattr.Mailbox.Store.Removal.{remains, delete_loop-table}
use skattr.Mailbox.Store.Insert.{insert_ok}
use skattr.Mailbox.Auth.{Crypto, Challenges, verify, op_byte_fetch, op_byte_delete, remove}
use skattr.Mailbox.Auth.Challenges.{DistinctKeys, DistinctKeys-issue, DistinctKeys-select}
use skattr.Mailbox.Policy.{Policy, resolve_ttl, ConnRateLimiter}
use skattr.Mailbox.Policy.Bounds.{IsBounded, try_acquire-IsBounded}
use skattr.Mailbox.Dispatch.{
  State, Handler, after, ◌>>=◌, lift, check_version, take_deposit, take_fetch, take_global,
  store_row, within, handle_deposit, handle_challenge, Libraries, payload_digest, check_signature,
  handle_fetch, handle_delete,
}

-- Unique ids, all bytes and all recipients within the policy.
abbrev pub Stored : Policy → Table → Type 0
Stored p t =
    Unique t
    × (sum_bytes t ≤ p.global_storage_cap_bytes)
    × (distinct_recipients t ≤ p.max_recipients)

abbrev pub BoundedConn : ConnRateLimiter → Type 0
BoundedConn c = IsBounded c.deposits × IsBounded c.fetches

pub record Inv (p : Policy) (s : State) : Type 0 where
  pub stored : Stored p s.deposits
  pub nonces : DistinctKeys s.challenges
  pub conn : BoundedConn s.conn_rl
  pub global : IsBounded s.global_rl

pub Stored-select :
    (p : Policy) (keep : Row → Bool) (t : Table) → Stored p t → Stored p (select keep t)
Stored-select p keep t (u, total, few) = (
  Unique-select keep t u,
  omega (arith, total, sum_bytes-select-le keep t),
  omega (arith, few, distinct_recipients-select-le keep t),
)

DistinctKeys-verify :
    (crypto : Crypto) (c : Challenges) (nonce key signature : Bytes) (op : ℕ) (digest : Bytes)
    (now : ℕ)
    → DistinctKeys c
    → DistinctKeys (verify crypto c nonce key signature op digest now).0
unfolding verify remove
DistinctKeys-verify crypto c nonce key signature op digest now u =
    ground (arith, DistinctKeys-select (λ e. not (same e.0 nonce)) c u)

-- The byte counts of the server fit an i64.
abbrev pub IsSane : Policy → Type 0
IsSane p = p.global_storage_cap_bytes + p.max_deposit_size < 2 ^ 63

module _ (p : Policy) where
  abbrev pub Keeps : {A : Type 0} → Handler A → Type 0
  Keeps m = (s : State) → Inv p s → Inv p (m s).0

  bind-Keeps :
      {A B : Type 0} (m : Handler A) (f : A → Handler B)
      → Keeps m
      → ((a : A) → Keeps (f a))
      → Keeps (m >>= f)
  bind-Keeps {A} {B} m f keep rest s i = go (m s) (keep s i)
    where
      go : (x : State × Result A) → Inv p x.0 → Inv p (after x f).0
      go (s₁, ok a) k = rest a s₁ k
      go (s₁, err y) k = k

  lift-Keeps :
      {A B : Type 0} (r : Result A) (f : A → Handler B)
      → ((a : A) → r ≡ ok a → Keeps (f a))
      → Keeps (lift r >>= f)
  lift-Keeps (ok a) f rest s i = rest a refl s i
  lift-Keeps (err e) f rest s i = i

  pub take_deposit-Keeps : (now : ℕ) → Keeps (take_deposit now)
  unfolding take_deposit
  take_deposit-Keeps now s i = record {
    stored = i.stored;
    nonces = i.nonces;
    conn = (try_acquire-IsBounded s.conn_rl.deposits now, i.conn.1);
    global = i.global;
  }

  take_fetch-Keeps : (now : ℕ) → Keeps (take_fetch now)
  unfolding take_fetch
  take_fetch-Keeps now s i = record {
    stored = i.stored;
    nonces = i.nonces;
    conn = (i.conn.0, try_acquire-IsBounded s.conn_rl.fetches now);
    global = i.global;
  }

  pub take_global-Keeps : (now : ℕ) → Keeps (take_global now)
  unfolding take_global
  take_global-Keeps now s i = record {
    stored = i.stored;
    nonces = i.nonces;
    conn = i.conn;
    global = try_acquire-IsBounded s.global_rl now;
  }

  pub store_row-Keeps :
      (r : Row) (now : ℕ)
      → IsSane p
      → length r.ciphertext ≤ p.max_deposit_size
      → Keeps (store_row p r now)
  unfolding store_row
  store_row-Keeps r now sane small s i =
      elim (Result-cases (
        insert s.deposits r p.recipient_cap_bytes p.global_storage_cap_bytes p.max_recipients
          now)) [
            | inl (t, e) ↦
                let (u, total, few) = i.stored in
                let (_, _, u', _, total', few') =
                  insert_ok s.deposits t r p.recipient_cap_bytes p.global_storage_cap_bytes
                    p.max_recipients now u (omega (arith, sane, small, total)) few e in
                rw (e, store_row)
                  (record {
                    stored = (u', total', few');
                    nonces = i.nonces;
                    conn = i.conn;
                    global = i.global;
                  })
            | inr (y, e) ↦ rw (e, store_row) i
          ]

  pub handle_deposit-Keeps :
      (b : Deposit) (id : Bytes) (now now_us : ℕ)
      → IsSane p
      → Keeps (handle_deposit p b id now now_us)
  unfolding handle_deposit
  handle_deposit-Keeps b id now now_us sane = lift-Keeps (check_version b.version) _ (λ _ _.
      lift-Keeps (within (length b.ciphertext) p.max_deposit_size (policy too_large)) _ (λ _ w.
        bind-Keeps (take_deposit now_us) _ (take_deposit-Keeps now_us) (λ _.
          bind-Keeps (take_global now_us) _ (take_global-Keeps now_us) (λ _.
            lift-Keeps (resolve_ttl p b.ttl_request) _ (λ ttl _.
              bind-Keeps (store_row p _ now) _ (store_row-Keeps _ now sane (ground (arith, w)))
                (λ _ s i. i))))))

  pub handle_challenge-Keeps :
      (b : Challenge) (nonce : Bytes) (now : ℕ) → Keeps (handle_challenge b nonce now)
  unfolding handle_challenge
  handle_challenge-Keeps b nonce now = lift-Keeps (check_version b.version) _ (λ _ _ s i. record {
    stored = i.stored;
    nonces = DistinctKeys-issue s.challenges nonce b.identity_hash now i.nonces;
    conn = i.conn;
    global = i.global;
  })

module _ (p : Policy) (libs : Libraries) where
  check_signature-Keeps :
      (nonce key signature : Bytes) (op : ℕ) (digest : Bytes) (now : ℕ)
      → Keeps p (check_signature libs nonce key signature op digest now)
  unfolding check_signature
  check_signature-Keeps nonce key signature op digest now s i = record {
    stored = i.stored;
    nonces =
        DistinctKeys-verify libs.crypto s.challenges nonce key signature op digest now i.nonces;
    conn = i.conn;
    global = i.global;
  }

  pub handle_fetch-Keeps : (b : Fetch) (now now_us : ℕ) → Keeps p (handle_fetch libs b now now_us)
  unfolding handle_fetch
  handle_fetch-Keeps b now now_us = lift-Keeps p (check_version b.version) _ (λ _ _.
      bind-Keeps p (take_fetch now_us) _ (take_fetch-Keeps p now_us) (λ _.
        lift-Keeps p (payload_digest libs (libs.fetch_tuple b.version b.identity_pubkey b.nonce)) _
          (λ digest _.
            bind-Keeps p
              (check_signature libs b.nonce b.identity_pubkey b.signature op_byte_fetch digest now)
              _
              (check_signature-Keeps b.nonce b.identity_pubkey b.signature op_byte_fetch digest now)
              (λ _ s i. i))))

  pub handle_delete-Keeps : (b : Delete) (now : ℕ) → Keeps p (handle_delete libs p b now)
  unfolding handle_delete Store.delete
  handle_delete-Keeps b now = lift-Keeps p (check_version b.version) _ (λ _ _.
      lift-Keeps p (within (length b.deposit_ids) p.max_delete_ids (policy too_many_delete_ids)) _
        (λ _ _.
          lift-Keeps p
            (payload_digest libs
              (libs.delete_tuple b.version b.identity_pubkey b.nonce b.deposit_ids))
            _
            (λ digest _.
              bind-Keeps p
                (check_signature libs b.nonce b.identity_pubkey b.signature op_byte_delete digest
                  now)
                _
                (check_signature-Keeps b.nonce b.identity_pubkey b.signature op_byte_delete digest
                  now)
                (λ _ s i.
                  let h = libs.crypto.sha256 b.identity_pubkey in
                  record {
                    stored =
                        subst (Stored p) (sym (delete_loop-table h b.deposit_ids s.deposits 0))
                          (Stored-select p (remains h b.deposit_ids) s.deposits i.stored);
                    nonces = i.nonces;
                    conn = i.conn;
                    global = i.global;
                  }))))
