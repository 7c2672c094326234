-- ===== src/Mailbox/Server/Reachable.antt =====
-- The state of a server that runs on a sane policy.
use skattr.Base.{
  ◌≤◌, ap, subst, Option, none, some, List, [], ◌∷◌, ◌++◌, length, length-append, arith, All,
  All-append, not,
}
use skattr.Mailbox.Store.{Table, is_expired}
use skattr.Mailbox.Store
use skattr.Mailbox.Auth.{is_old}
use skattr.Mailbox.Auth
use skattr.Mailbox.Auth.Challenges.{DistinctKeys, DistinctKeys-select}
use skattr.Mailbox.Policy.{Policy, ConnRateLimiter, from_policy}
use skattr.Mailbox.Policy.Bounds.{IsBounded, new-IsBounded}
use skattr.Mailbox.Codec.{
  MailboxFrame, deposit, challenge, fetch, delete, deposit_ok, challenge_nonce, fetch_response,
  delete_ok, error,
}
use skattr.Mailbox.Dispatch.{State, Libraries}
use skattr.Mailbox.Dispatch.Invariant.{
  Stored, Stored-select, BoundedConn, Inv, IsSane, handle_deposit-Keeps, handle_challenge-Keeps,
  handle_fetch-Keeps, handle_delete-Keeps,
}
use skattr.Mailbox.Server.{
  expire_tick, challenge_tick, Draw, Item, frame, malformed, handle, turn, Server, seen_by, Step,
  kept_conn, accepts, sheds, closes, serves, expires, forgets, Reach, started, then_step,
}

All-around {ℓ κ} :
    {A : Type ℓ} (P : A → Type κ) (before later : List A) (a : A)
    → All P (before ++ (a ∷ later))
    → All P before × (P a × All P later)
All-around P [] later a (h, k) = (tt, (h, k))
All-around P (b ∷ before) later a (h, k) = let (x, y) = All-around P before later a k in ((h, x), y)

kept_conn-BoundedConn :
    (f : Option MailboxFrame) (c : ConnRateLimiter)
    → BoundedConn c
    → All BoundedConn (kept_conn f c)
kept_conn-BoundedConn none c b = tt
kept_conn-BoundedConn (some f) c b = (b, tt)

length-kept_conn : (f : Option MailboxFrame) (c : ConnRateLimiter) → length (kept_conn f c) ≤ 1
length-kept_conn none c = omega arith
length-kept_conn (some f) c = omega arith

module _ (p : Policy) (libs : Libraries) where
  pub turn-Inv :
      (item : Item) (d : Draw) (s : State) → IsSane p → Inv p s → Inv p (turn p libs item d s).0
  unfolding turn handle
  turn-Inv (malformed kind) d s sane i = i
  turn-Inv (frame (deposit b)) d s sane i =
      handle_deposit-Keeps p b d.random d.now d.now_us sane s i
  turn-Inv (frame (challenge b)) d s sane i = handle_challenge-Keeps p b d.random d.now s i
  turn-Inv (frame (fetch b)) d s sane i = handle_fetch-Keeps p libs b d.now d.now_us s i
  turn-Inv (frame (delete b)) d s sane i = handle_delete-Keeps p libs b d.now s i
  turn-Inv (frame (deposit_ok b)) d s sane i = i
  turn-Inv (frame (challenge_nonce b)) d s sane i = i
  turn-Inv (frame (fetch_response b)) d s sane i = i
  turn-Inv (frame (delete_ok b)) d s sane i = i
  turn-Inv (frame (error b)) d s sane i = i

  -- The invariant of the server.
  abbrev pub Safe : Server → Type 0
  Safe v =
      Stored p v.deposits
      × DistinctKeys v.challenges
      × IsBounded v.global_rl
      × All BoundedConn v.conns
      × (length v.conns ≤ p.max_connections)

  Step-Safe : {v w : Server} → IsSane p → Step p libs v w → Safe v → Safe w
  unfolding from_policy expire_tick challenge_tick Store.expire_sweep Auth.sweep
  Step-Safe sane (accepts now_us room) (st, n, g, c, few) = (
    st,
    n,
    g,
    (
      (
        new-IsBounded p.per_conn_deposits_per_min now_us,
        new-IsBounded p.per_conn_fetches_per_min now_us,
      ),
      c,
    ),
    omega (arith, room),
  )
  Step-Safe sane (sheds full) safe = safe
  Step-Safe sane (closes {v} before later c e) (st, n, g, b, few) =
      let (x, (_, z)) = All-around BoundedConn before later c (subst (All BoundedConn) e b) in
      (
        st,
        n,
        g,
        All-append BoundedConn before later x z,
        omega
            (arith, few, ap length e, length-append before (c ∷ later), length-append before later),
      )
  Step-Safe sane (serves {v} before later c item d e) (st, n, g, b, few) =
      let (x, (y, z)) = All-around BoundedConn before later c (subst (All BoundedConn) e b) in
      let i =
        turn-Inv item d (seen_by v c) sane
          (record { stored = st; nonces = n; conn = y; global = g }) in
      let s' : State = (turn p libs item d (seen_by v c)).0 in
      let answer = (turn p libs item d (seen_by v c)).1 in
      (
        i.stored,
        i.nonces,
        i.global,
        All-append BoundedConn before _ x (
            All-append BoundedConn (kept_conn answer s'.conn_rl) later
              (kept_conn-BoundedConn answer s'.conn_rl i.conn) z),
        omega (
          arith,
          few,
          ap length e,
          length-append before (c ∷ later),
          length-append before (kept_conn answer s'.conn_rl ++ later),
          length-append (kept_conn answer s'.conn_rl) later,
          length-kept_conn answer s'.conn_rl,
        ),
      )
  Step-Safe sane (expires {v} now) (st, n, g, c, few) =
      (Stored-select p (λ r. not (is_expired now r)) v.deposits st, n, g, c, few)
  Step-Safe sane (forgets {v} now) (st, n, g, c, few) =
      (st, DistinctKeys-select (λ e. not (is_old now e.1)) v.challenges n, g, c, few)

  -- A server on a policy whose byte counts fit an i64, that starts on a store with unique deposit
  -- ids and with no more bytes and recipients than this policy allows, has in every state that it
  -- reaches, whatever the clients send, whenever they hang up and whenever the sweeps run, unique
  -- deposit ids, no more bytes and no more recipients than the policy allows, each nonce once,
  -- rate limits within their bounds, and no more connections than allowed.
  pub reachable-Safe :
      (store : Table) (v : Server) → IsSane p → Stored p store → Reach p libs store v → Safe v
  reachable-Safe store _ sane stored (started now_us) =
      (stored, tt, new-IsBounded p.global_deposits_per_min now_us, tt, omega arith)
  reachable-Safe store _ sane stored (then_step {v} r step) =
      Step-Safe sane step (reachable-Safe store v sane stored r)
