-- ===== src/Mailbox/Server.antt =====
-- crates/mailbox/src/server.rs and crates/mailbox/src/background.rs: the connections and what
-- happens on them, and the sweeps. An answer that the codec refuses, or that does not get through,
-- closes its connection. A connection that is served keeps its own rate limiter; the
-- store, the challenges and the server's limiter are shared. One handler runs at a time on each.
pub mod Reachable
pub mod Answers
pub mod Waiting
mod Tests
use skattr.Base.{
  ℕ, Bool, List, [], ◌∷◌, ◌++◌, Bytes, Option, none, some, length, ◌<◌, ◌≤◌, ◌≡◌, if◌then◌else◌,
}
use skattr.Mailbox.Failure.{
  Result, ok, err, MailboxError, transport, TransportErrorKind, decode_failed,
}
use skattr.Mailbox.Store.{Table}
use skattr.Mailbox.Store
use skattr.Mailbox.Auth.{Challenges}
use skattr.Mailbox.Auth
use skattr.Mailbox.Policy.{Policy, TokenBucket, ConnRateLimiter, new, from_policy}
use skattr.Mailbox.Codec.{MailboxFrame, deposit, challenge, fetch, delete, encode_frame}
use skattr.Mailbox.Dispatch.{
  State, Handler, error_frame, handle_deposit, handle_challenge, handle_fetch, handle_delete,
  Libraries, lift,
}

-- What is drawn while a frame is handled: the random bytes of an id or a nonce, the time, and whether
-- the client hangs up while the answer is written.
pub record Draw : Type 0 where
  pub random : Bytes
  pub now : ℕ
  pub now_us : ℕ
  pub hangs_up : Bool

-- What `framed.next()` gives when the loop goes on: a frame, or a transport error of the codec. Any
-- other error ends the loop, as the end of the stream and the timeout do.
pub data Item : Type 0 where
  frame : MailboxFrame → Item
  malformed : TransportErrorKind → Item

-- `to_send`
unfoldable pub to_send : Result MailboxFrame → MailboxFrame
unfolding error_frame
to_send (ok f) = f
to_send (err e) = error_frame e

module _ (p : Policy) (libs : Libraries) where
  -- The `match frame` of `accept_loop`.
  unfoldable pub handle : MailboxFrame → Draw → Handler MailboxFrame
  handle (deposit b) d = handle_deposit p b d.random d.now d.now_us
  handle (challenge b) d = handle_challenge b d.random d.now
  handle (fetch b) d = handle_fetch libs b d.now d.now_us
  handle (delete b) d = handle_delete libs p b d.now
  handle _ d = lift (err (transport decode_failed))

  abbrev pub written : MailboxFrame → Result Bytes → Option MailboxFrame
  written f (ok bytes) = some f
  written f (err e) = none

  -- `framed.send`: the frame that reaches the client, unless the codec refuses it or it hangs up.
  unfoldable pub send : Bool → MailboxFrame → Option MailboxFrame
  send hangs_up f = if hangs_up then none else written f (encode_frame libs.bodies f [])

  -- One turn of the loop of `accept_loop`, on what was read: the state after it, and the frame that
  -- is sent; without one the loop has returned. An error of the codec is answered too.
  unfoldable pub turn : Item → Draw → State → State × Option MailboxFrame
  unfolding handle to_send send
  turn (malformed kind) d s = (s, send d.hangs_up (error_frame (transport kind)))
  turn (frame f) d s = let (s', resp) = handle f d s in (s', send d.hangs_up (to_send resp))

-- The server: what its connections share, and the limiter of each connection that is served.
pub record Server : Type 0 where
  pub deposits : Table
  pub challenges : Challenges
  pub global_rl : TokenBucket
  pub conns : List ConnRateLimiter

abbrev pub seen_by : Server → ConnRateLimiter → State
seen_by v c = record {
  deposits = v.deposits;
  challenges = v.challenges;
  conn_rl = c;
  global_rl = v.global_rl;
}

-- `MailboxServer::new` on the deposits of a database, which may be those of an earlier run.
abbrev pub start : Policy → Table → ℕ → Server
start p store now_us = record {
  deposits = store;
  challenges = [];
  global_rl = new p.global_deposits_per_min now_us;
  conns = [];
}

-- One tick of the loop of `spawn_expire_sweep`, and of that of `spawn_challenge_sweep`.
unfoldable pub expire_tick : ℕ → Server → Server
expire_tick now v = record v { deposits = (Store.expire_sweep v.deposits now).0 }

unfoldable pub challenge_tick : ℕ → Server → Server
challenge_tick now v = record v { challenges = (Auth.sweep v.challenges now).0 }

-- A connection whose answer was not sent is closed.
abbrev pub kept_conn : Option MailboxFrame → ConnRateLimiter → List ConnRateLimiter
kept_conn none c = []
kept_conn (some f) c = c ∷ []

-- `accepts`: a permit is left, and the connection gets its limiter. `sheds`: none is, and nothing
-- is kept. `closes`: the client hung up, was idle, or the stream failed. `serves`: one turn of the
-- loop of one connection. The last two are the sweeps of background.rs.
pub data Step (p : Policy) (libs : Libraries) : Server → Server → Type 0 where
  accepts :
      {v : Server} (now_us : ℕ)
      → length v.conns < p.max_connections
      → Step p libs v (record v { conns = from_policy p now_us ∷ v.conns })
  sheds : {v : Server} → p.max_connections ≤ length v.conns → Step p libs v v
  closes :
      {v : Server} (before later : List ConnRateLimiter) (c : ConnRateLimiter)
      → v.conns ≡ before ++ (c ∷ later)
      → Step p libs v (record v { conns = before ++ later })
  serves :
      {v : Server} (before later : List ConnRateLimiter) (c : ConnRateLimiter) (item : Item)
      (d : Draw)
      → v.conns ≡ before ++ (c ∷ later)
      → Step p libs v (
          let s' = (turn p libs item d (seen_by v c)).0 in
          record {
            deposits = s'.deposits;
            challenges = s'.challenges;
            global_rl = s'.global_rl;
            conns = before ++ (kept_conn (turn p libs item d (seen_by v c)).1 s'.conn_rl ++ later);
          })
  expires : {v : Server} (now : ℕ) → Step p libs v (expire_tick now v)
  forgets : {v : Server} (now : ℕ) → Step p libs v (challenge_tick now v)

pub data Reach (p : Policy) (libs : Libraries) (store : Table) : Server → Type 0 where
  started : (now_us : ℕ) → Reach p libs store (start p store now_us)
  then_step : {v w : Server} → Reach p libs store v → Step p libs v w → Reach p libs store w
