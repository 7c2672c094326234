-- ===== src/Poller/Threshold.antt =====
-- When an actor gives its mailbox up.
use Prim.Native.Nat.{◌^◌}
use skattr.Base.{
  ℕ, suc, ◌+◌, ◌-◌, ◌<◌, ◌≤◌, ◌≡◌, refl, ap, sym, subst, inl, inr, ◌⊎◌, true, false, List, [], ◌∷◌,
  ◌++◌, min, leb, All, arith, Bool-cases,
}
use skattr.Base.Results.{ok, err}
use skattr.Client.{ClientErrorKind}
use skattr.Client
use skattr.Mailboxes.{MailboxStatus}
use skattr.Poller.{
  PollCadence, failure_threshold, Actor, same_status, Spelling, Tick, connect_failed, polled,
  report, count_failure, on_poll, tick, bump_active,
}
use skattr.Poller.Statuses.{Turn, ticks, bumps, run}

-- A tick that counts as a failure: any error but that of the rate limit.
abbrev pub IsFailure : Tick → Type 0
IsFailure (connect_failed e) = Unit {0}
IsFailure (polled (ok n)) = ⊥
IsFailure (polled (err Client.rate_limited)) = ⊥
IsFailure (polled (err e)) = Unit {0}

-- Nothing but failures, each at a time of its own, and signals to stay active between them.
abbrev pub OnlyFailure : Turn → Type 0
OnlyFailure (ticks t now instant) = IsFailure t
OnlyFailure (bumps instant) = Unit {0}

abbrev pub ticks_in : List Turn → ℕ
ticks_in [] = 0
ticks_in (ticks t now instant ∷ ts) = suc (ticks_in ts)
ticks_in (bumps instant ∷ ts) = ticks_in ts

module _ (spelling : Spelling) (id : ℕ) (c : PollCadence) where
  -- After `k` failures in a row: below the threshold nothing was reported, from it on one event.
  abbrev pub Counted : ℕ → Actor → Actor → Type 0
  Counted k a b =
      ((k < failure_threshold) × (b.last_status ≡ a.last_status) × (b.events ≡ a.events))
      ⊎ ((failure_threshold ≤ k)
          × (b.last_status ≡ MailboxStatus.unreachable)
          × (b.events ≡ a.events ++ (MailboxStatus.unreachable ∷ [])))

  abbrev Failed : ℕ → Actor → Actor → Type 0
  Failed k a b = (b.consecutive_failures ≡ k) × Counted k a b

  count_failure-Failed :
      (e : ClientErrorKind) (now k : ℕ) (a b : Actor)
      → same_status a.last_status MailboxStatus.unreachable ≡ false
      → k < 2 ^ 31
      → Failed k a b
      → Failed (suc k) a (count_failure spelling id c e now b)
  unfolding count_failure report
  count_failure-Failed e now k a b fresh small (n, inl (below, same, kept)) =
      let m : min (b.consecutive_failures + 1) (2 ^ 32 - 1) ≡ suc k = omega (arith, n, small) in
      elim (Bool-cases (leb failure_threshold (suc k))) [
        | inl reached ↦
            let unreported : same_status b.last_status MailboxStatus.unreachable ≡ false =
              subst (λ x. same_status x MailboxStatus.unreachable ≡ false) (sym same) fresh in
            rw (m, reached, unreported)
              (
                refl,
                inr (
                  ground (arith, reached),
                  refl,
                  ap (λ x. x ++ (MailboxStatus.unreachable ∷ [])) kept,
                ),
              )
        | inr not_yet ↦ rw (m, not_yet) (refl, inl (ground (arith, not_yet), same, kept))
      ]
  count_failure-Failed e now k a b fresh small (n, inr (above, gone, told)) =
      let m : min (b.consecutive_failures + 1) (2 ^ 32 - 1) ≡ suc k = omega (arith, n, small) in
      let reached : leb failure_threshold (suc k) ≡ true = ground (arith, above) in
      let reported : same_status b.last_status MailboxStatus.unreachable ≡ true =
        subst (λ x. same_status x MailboxStatus.unreachable ≡ true) (sym gone)
          (unfold same_status in refl) in
      rw (m, reached, reported) (refl, inr (omega (arith, above), gone, told))

  tick-Failed :
      (t : Tick) (now instant k : ℕ) (a b : Actor)
      → same_status a.last_status MailboxStatus.unreachable ≡ false
      → k < 2 ^ 31
      → IsFailure t
      → Failed k a b
      → Failed (suc k) a (tick spelling id c t now instant b)
  unfolding tick on_poll
  tick-Failed (connect_failed e) now instant k a b fresh small f h =
      count_failure-Failed e now k a b fresh small h
  tick-Failed (polled (ok n)) now instant k a b fresh small f h = absurd f
  tick-Failed (polled (err Client.rate_limited)) now instant k a b fresh small f h = absurd f
  tick-Failed (polled (err e)) now instant k a b fresh small f h =
      count_failure-Failed e now k a _ fresh small h

  run-Failed :
      (ts : List Turn) (k : ℕ) (a b : Actor)
      → same_status a.last_status MailboxStatus.unreachable ≡ false
      → k + ticks_in ts < 2 ^ 31
      → All OnlyFailure ts
      → Failed k a b
      → Counted (k + ticks_in ts) a (run spelling id c ts b)
  unfolding bump_active
  run-Failed [] k a b fresh small f h = subst (λ n. Counted n a b) (omega arith) h.1
  run-Failed (ticks t now instant ∷ ts) k a b fresh small (ft, f) h =
      subst (λ n. Counted n a (run spelling id c ts (tick spelling id c t now instant b)))
        (omega arith)
        (run-Failed ts (suc k) a _ fresh (omega (arith, small)) f
          (tick-Failed t now instant k a b fresh (omega (arith, small)) ft h))
  run-Failed (bumps instant ∷ ts) k a b fresh small (_, f) (n, counted) =
      run-Failed ts k a _ fresh small f (n, counted)

  -- From a success on, as long as nothing but failures follows, fewer than 2^31 of them, whenever
  -- their ticks come and whatever signals to stay active come between, an actor whose mailbox is
  -- not unreachable yet reports nothing for four of them; the fifth makes the mailbox
  -- unreachable, which is reported once, however many more follow.
  pub unreachable_after_five :
      (ts : List Turn) (a : Actor)
      → a.consecutive_failures ≡ 0
      → same_status a.last_status MailboxStatus.unreachable ≡ false
      → ticks_in ts < 2 ^ 31
      → All OnlyFailure ts
      → Counted (ticks_in ts) a (run spelling id c ts a)
  unreachable_after_five ts a zero_failures fresh small f =
      let whole : 0 + ticks_in ts ≡ ticks_in ts = omega arith in
      subst (λ n. Counted n a (run spelling id c ts a)) whole
        (run-Failed ts 0 a a fresh (omega (arith, small)) f
          (zero_failures, inl (omega arith, refl, refl)))
