-- ===== src/Poller/Statuses.antt =====
-- What an actor reports of its mailbox.
use Prim.Native.Nat.{◌^◌}
use skattr.Base.{
  ℕ, ◌+◌, ◌-◌, ◌≡◌, refl, sym, subst, inl, inr, ◌⊎◌, false, List, [], ◌∷◌, ◌++◌, Bytes, min, leb,
  if◌then◌else◌, All, Bool-cases,
}
use skattr.Base.Results.{Result, ok, err}
use skattr.Client.{ClientErrorKind}
use skattr.Client
use skattr.Mailboxes.{
  MailboxStatus, MailboxRow, has_id, update_id, set_status, polled_at, failed_at, mark_status,
  touch_poll, record_error,
}
use skattr.Poller.{
  PollCadence, failure_threshold, Actor, same_status, Spelling, Tick, connect_failed, polled,
  report, count_failure, on_poll, tick, bump_active,
}

-- Each status differs from the one before it, and `last` is the last of them.
abbrev pub Chain : MailboxStatus → List MailboxStatus → MailboxStatus → Type 0
Chain first [] last = first ≡ last
Chain first (e ∷ es) last = (same_status first e ≡ false) × Chain e es last

Chain-append :
    (first : MailboxStatus) (es : List MailboxStatus) (last e : MailboxStatus)
    → Chain first es last
    → same_status last e ≡ false
    → Chain first (es ++ (e ∷ [])) e
Chain-append first [] last e c d = (subst (λ x. same_status x e ≡ false) (sym c) d, refl)
Chain-append first (x ∷ es) last e (a, c) d = (a, Chain-append x es last e c d)

-- A row of the mailbox has this status.
abbrev pub Agrees : ℕ → MailboxStatus → MailboxRow → Type 0
Agrees id status r = (has_id id r ≡ false) ⊎ (r.status ≡ status)

-- The events form a chain from the first status, and the row has the last one.
pub record Truthful (id : ℕ) (first : MailboxStatus) (a : Actor) : Type 0 where
  pub chain : Chain first a.events a.last_status
  pub stored : All (Agrees id a.last_status) a.mailboxes.rows

update_id-Agrees :
    (id : ℕ) (old status : MailboxStatus) (f : MailboxRow → MailboxRow) (rows : List MailboxRow)
    → ((r : MailboxRow) → r.status ≡ old → (f r).status ≡ status)
    → All (Agrees id old) rows
    → All (Agrees id status) (update_id id f rows)
unfolding update_id
update_id-Agrees id old status f [] g h = tt
update_id-Agrees id old status f (r ∷ rows) g (hr, h) =
    let rest = update_id-Agrees id old status f rows g h in
    elim (Bool-cases (has_id id r)) [
      | inl e ↦ rw (e, if◌then◌else◌) (elim hr [ inl n ↦ cc | inr k ↦ inr (g r k) ], rest)
      | inr e ↦ rw (e, if◌then◌else◌) (inl e, rest)
    ]

-- What the actor does next: a tick, or a signal that it stay active.
pub data Turn : Type 0 where
  ticks : Tick → (now instant : ℕ) → Turn
  bumps : (instant : ℕ) → Turn

module _ (spelling : Spelling) (id : ℕ) (c : PollCadence) where
  abbrev pub run : List Turn → Actor → Actor
  run [] a = a
  run (ticks t now instant ∷ ts) a = run ts (tick spelling id c t now instant a)
  run (bumps instant ∷ ts) a = run ts (bump_active spelling id c instant a)

module _ (spelling : Spelling) (id : ℕ) (c : PollCadence) (first : MailboxStatus) where
  abbrev Good : Actor → Type 0
  Good = Truthful id first

  report-Good : (status : MailboxStatus) (a : Actor) → Good a → Good (report spelling id c status a)
  unfolding report mark_status
  report-Good status a g = elim (Bool-cases (same_status a.last_status status)) [
    | inl e ↦ rw (e, if◌then◌else◌) g
    | inr e ↦
        rw (e, if◌then◌else◌)
          (record {
            chain = Chain-append first a.events a.last_status status g.chain e;
            stored =
                update_id-Agrees id a.last_status status (set_status status) a.mailboxes.rows
                  (λ r k. refl) g.stored;
          })
  ]

  noted-Good :
      (kind : Bytes) (now n : ℕ) (a : Actor)
      → Good a
      → Good
          (record a { consecutive_failures = n; mailboxes = record_error a.mailboxes id kind now })
  unfolding record_error
  noted-Good kind now n a g = record {
    chain = g.chain;
    stored =
        update_id-Agrees id a.last_status a.last_status (failed_at kind now) a.mailboxes.rows
          (λ r k. k) g.stored;
  }

  touched-Good :
      (now : ℕ) (a : Actor) → Good a → Good (record a { mailboxes = touch_poll a.mailboxes id now })
  unfolding touch_poll
  touched-Good now a g = record {
    chain = g.chain;
    stored =
        update_id-Agrees id a.last_status a.last_status (polled_at now) a.mailboxes.rows (λ r k. k)
          g.stored;
  }

  count_failure-Good :
      (e : ClientErrorKind) (now : ℕ) (a : Actor)
      → Good a
      → Good (count_failure spelling id c e now a)
  unfolding count_failure
  count_failure-Good e now a g =
      let n = min (a.consecutive_failures + 1) (2 ^ 32 - 1) in
      let noted = noted-Good (spelling e) now n a g in
      elim (Bool-cases (leb failure_threshold n)) [
        | inl k ↦ rw (k, if◌then◌else◌) (report-Good MailboxStatus.unreachable _ noted)
        | inr k ↦ rw (k, if◌then◌else◌) noted
      ]

  on_poll-Good :
      (r : Result ClientErrorKind ℕ) (now instant : ℕ) (a : Actor)
      → Good a
      → Good (on_poll spelling id c r now instant a)
  unfolding on_poll
  on_poll-Good (ok n) now instant a g =
      report-Good MailboxStatus.reachable _ (record { chain = g.chain; stored = g.stored })
  on_poll-Good (err Client.rate_limited) now instant a g =
      report-Good MailboxStatus.rate_limited _ (noted-Good _ now a.consecutive_failures a g)
  on_poll-Good (err e) now instant a g = count_failure-Good e now a g

  tick-Good :
      (t : Tick) (now instant : ℕ) (a : Actor) → Good a → Good (tick spelling id c t now instant a)
  unfolding tick
  tick-Good (connect_failed e) now instant a g = count_failure-Good e now a g
  tick-Good (polled r) now instant a g = on_poll-Good r now instant _ (touched-Good now a g)

  -- However its ticks go, an actor never reports the status that it reported last, the last one is
  -- the one that it keeps, and the row of its mailbox has that status.
  pub run-Truthful :
      (ts : List Turn) (a : Actor)
      → Truthful id first a
      → Truthful id first (run spelling id c ts a)
  unfolding bump_active
  run-Truthful [] a g = g
  run-Truthful (ticks t now instant ∷ ts) a g = run-Truthful ts _ (tick-Good t now instant a g)
  run-Truthful (bumps instant ∷ ts) a g =
      run-Truthful ts _ (record { chain = g.chain; stored = g.stored })
