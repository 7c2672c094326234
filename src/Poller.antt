-- ===== src/Poller.antt =====
-- crates/core/src/mailbox/poll.rs: fetching from one's own mailboxes. The inbound pipeline is a
-- parameter with a state of its own; the random jitter and the clock are arguments. Nanoseconds and
-- instants are numbers.
pub mod Interval
pub mod Drained
pub mod Statuses
pub mod Threshold
mod Tests
use Prim.Native.Nat.{◌^◌}
use skattr.Base.{
  ℕ, suc, ◌+◌, ◌-◌, ◌*◌, ◌%◌, Bool, true, false, List, [], ◌∷◌, ◌++◌, Option, none, some, Bytes,
  length, min, ltb, leb, ◌&&◌, ◌==◌, not, if◌then◌else◌, select,
}
use skattr.Base.Int.{ℤ, pos, negsuc, pos_part, neg_part}
use skattr.Base.Results.{Result, ok, err}
use skattr.Mailbox.Protocol.{PendingDeposit, FetchResponse, DeleteOk}
use skattr.Mailbox.Codec.{MailboxFrame}
use skattr.Mailbox.Dispatch.{Libraries}
use skattr.Client.{ClientErrorKind, Exchange, Identity, fetch_all, delete_ids}
use skattr.Client
use skattr.Mailboxes.{MailboxStatus, Mailboxes, mark_status, touch_poll, record_error}

abbrev pub nanos_per_sec : ℕ
nanos_per_sec = 1000000000

pub record PollCadence : Type 0 where
  pub active_base : ℕ
  pub idle_base : ℕ
  pub idle_ceiling : ℕ
  pub active_hold : ℕ

abbrev pub default_cadence : PollCadence
default_cadence = record {
  active_base = 15 * nanos_per_sec;
  idle_base = 60 * nanos_per_sec;
  idle_ceiling = 5 * 60 * nanos_per_sec;
  active_hold = 5 * 60 * nanos_per_sec;
}

abbrev pub failure_threshold : ℕ
failure_threshold = 5

unfoldable pub base_of : Bool → Bool → PollCadence → ℕ
base_of active true c = c.idle_ceiling
base_of true false c = c.active_base
base_of false false c = c.idle_base

-- `delta` is the number drawn between minus and plus a quarter of the base; what is below 0 becomes
-- 0, and the i128 is cut to a u64.
unfoldable pub next_interval : Bool → Bool → PollCadence → (delta : ℤ) → ℕ
unfolding base_of
next_interval active is_unreachable c delta =
    (base_of active is_unreachable c + pos_part delta - neg_part delta) % 2 ^ 64

-- What `dyn InboundDispatch` offers the poller.
pub record InboundDispatch (D : Type 0) : Type 0 where
  pub dispatch_attachment_chunk : D → Bytes → D × Bool
  pub dispatch_mailbox : D → Bytes → D × Option Bytes

module _ {D : Type 0} (inbound : InboundDispatch D) where
  abbrev pub is_some : Option Bytes → Bool
  is_some none = false
  is_some (some _) = true

  -- `dispatch_attachment_chunk(…) || dispatch_mailbox(…).is_some()`
  unfoldable pub dispatch : D → Bytes → D × Bool
  dispatch w ciphertext =
      let (w₁, chunk) = inbound.dispatch_attachment_chunk w ciphertext in
      let (w₂, id) = inbound.dispatch_mailbox w₁ ciphertext in
      if chunk then (w₁, true) else (w₂, is_some id)

  -- The loop over the deposits: the pipeline after it, and the ids of those dispatched.
  unfoldable pub dispatch_all : D → List PendingDeposit → D × List Bytes
  unfolding dispatch
  dispatch_all w [] = (w, [])
  dispatch_all w (dep ∷ deposits) =
      let (w₁, taken) = dispatch w dep.ciphertext in
      let (w₂, ids) = dispatch_all w₁ deposits in (w₂, if taken then dep.deposit_id ∷ ids else ids)

  module _ {W : Type 0} (send : W → MailboxFrame → W × Exchange) (libs : Libraries)
      (identity : Identity) where
    abbrev pub Polled : Type 0
    Polled = (W × D) × Result ClientErrorKind ℕ

    unfoldable pub on_deleted : D → ℕ → W × Result ClientErrorKind DeleteOk → Polled
    on_deleted x count (w, ok _) = ((w, x), ok count)
    on_deleted x count (w, err e) = ((w, x), err e)

    -- Only what was dispatched is deleted.
    unfoldable pub delete_dispatched : W → D × List Bytes → Polled
    unfolding on_deleted
    delete_dispatched w (x, []) = ((w, x), ok 0)
    delete_dispatched w (x, id ∷ ids) =
        on_deleted x (length (id ∷ ids)) (delete_ids send libs identity (id ∷ ids) w)

    unfoldable pub on_fetched : D → W × Result ClientErrorKind FetchResponse → Polled
    unfolding delete_dispatched dispatch_all
    on_fetched x (w, err e) = ((w, x), err e)
    on_fetched x (w, ok resp) = delete_dispatched w (dispatch_all x resp.deposits)

    unfoldable pub poll_dispatch_once : W → D → Polled
    unfolding on_fetched
    poll_dispatch_once w x = on_fetched x (fetch_all send libs identity w)

-- What one actor keeps, with the table that it writes to and the events that it has sent.
pub record Actor : Type 0 where
  pub last_status : MailboxStatus
  pub consecutive_failures : ℕ
  pub active_until : Option ℕ
  pub mailboxes : Mailboxes
  pub events : List MailboxStatus

unfoldable pub is_active : Actor → ℕ → Bool
is_active a now = elim a.active_until [ none ↦ false | some deadline ↦ ltb now deadline ]

-- `matches!(last_status, …)`
unfoldable pub same_status : MailboxStatus → MailboxStatus → Bool
same_status MailboxStatus.unknown MailboxStatus.unknown = true
same_status MailboxStatus.reachable MailboxStatus.reachable = true
same_status MailboxStatus.unreachable MailboxStatus.unreachable = true
same_status MailboxStatus.rate_limited MailboxStatus.rate_limited = true
same_status MailboxStatus.pending_removal MailboxStatus.pending_removal = true
same_status MailboxStatus.removed MailboxStatus.removed = true
same_status _ _ = false

-- `error_kind_str`
abbrev pub Spelling : Type 0
Spelling = ClientErrorKind → Bytes

-- How a tick went: the connection failed, or the poll gave a result.
pub data Tick : Type 0 where
  connect_failed : ClientErrorKind → Tick
  polled : Result ClientErrorKind ℕ → Tick

module _ (spelling : Spelling) (id : ℕ) (c : PollCadence) where
  -- The change of status that each of the branches makes, unless the status is reported already.
  unfoldable pub report : MailboxStatus → Actor → Actor
  unfolding same_status
  report status a = if same_status a.last_status status then a else record a {
    last_status = status;
    mailboxes = mark_status a.mailboxes id status;
    events = a.events ++ (status ∷ []);
  }

  -- The counter is a u32 that saturates.
  unfoldable pub count_failure : ClientErrorKind → ℕ → Actor → Actor
  unfolding report
  count_failure e now a =
      let n = min (a.consecutive_failures + 1) (2 ^ 32 - 1) in
      let a' : Actor = record a {
        consecutive_failures = n;
        mailboxes = record_error a.mailboxes id (spelling e) now;
      } in
      if leb failure_threshold n then report MailboxStatus.unreachable a' else a'

  -- `instant` is the monotonic clock, `now` the wall clock.
  unfoldable pub on_poll : Result ClientErrorKind ℕ → (now instant : ℕ) → Actor → Actor
  unfolding count_failure report
  on_poll (ok dispatched) now instant a = report MailboxStatus.reachable (record a {
    consecutive_failures = 0;
    active_until = if ltb 0 dispatched then some (instant + c.active_hold) else a.active_until;
  })
  on_poll (err Client.rate_limited) now instant a =
      report MailboxStatus.rate_limited
        (record a { mailboxes = record_error a.mailboxes id (spelling Client.rate_limited) now })
  on_poll (err e) now instant a = count_failure e now a

  unfoldable pub tick : Tick → (now instant : ℕ) → Actor → Actor
  unfolding on_poll count_failure
  tick (connect_failed e) now instant a = count_failure e now a
  tick (polled r) now instant a =
      on_poll r now instant (record a { mailboxes = touch_poll a.mailboxes id now })

  unfoldable pub bump_active : ℕ → Actor → Actor
  bump_active instant a = record a { active_until = some (instant + c.active_hold) }
