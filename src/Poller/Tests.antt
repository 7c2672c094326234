-- ===== src/Poller/Tests.antt =====
-- An actor and a poll on concrete states. The toy libraries are those of the server.
use skattr.Base.{ℕ, ◌+◌, refl, inr, false, List, [], ◌∷◌, none, some, arith}
use skattr.Base.Results.{ok, err}
use skattr.Mailbox.Store.{Row}
use skattr.Mailbox.Policy.{new}
use skattr.Mailbox.Dispatch.{State}
use skattr.Mailbox.Server.{Draw}
use skattr.Mailbox.Tests.{key}
use skattr.Client.{Identity}
use skattr.Client
use skattr.Mailboxes.{MailboxStatus, mine, new_row}
use skattr.Poller.{InboundDispatch, default_cadence, Actor, same_status, connect_failed, polled}
use skattr.Poller.Statuses.{Truthful, Turn, ticks, bumps, run, run-Truthful}
use skattr.Poller.Threshold.{Counted, unreachable_after_five}

abbrev idle : Actor
idle = record {
  last_status = MailboxStatus.unknown;
  consecutive_failures = 0;
  active_until = none;
  mailboxes = record { rows = new_row 4 (1 ∷ []) mine 10 ∷ []; last_id = 4 };
  events = [];
}

-- Five failures, some minutes apart, and a signal to stay active.
abbrev failures : List Turn
failures =
    ticks (connect_failed Client.unreachable) 20 20
    ∷ ticks (polled (err Client.nonce_expired)) 95 95
    ∷ bumps 100
    ∷ ticks (connect_failed Client.unreachable) 115 115
    ∷ ticks (connect_failed Client.unreachable) 128 128
    ∷ ticks (connect_failed Client.unreachable) 145 145
    ∷ []

unreachable_after_five_example :
    Counted (λ e. []) 4 default_cadence 5 idle (run (λ e. []) 4 default_cadence failures idle)
unfolding same_status
unreachable_after_five_example =
    unreachable_after_five (λ e. []) 4 default_cadence failures idle refl refl (omega arith)
      (tt, (tt, (tt, (tt, (tt, (tt, tt))))))

idle-Truthful : Truthful 4 MailboxStatus.unknown idle
idle-Truthful = record { chain = refl; stored = (inr refl, tt) }

run-Truthful_example : Truthful 4 MailboxStatus.unknown (
    run
      (λ e. [])
      4
      default_cadence
      (ticks (polled (ok 1)) 20 20 ∷ bumps 21 ∷ ticks (polled (err Client.rate_limited)) 30 30 ∷ [])
      idle)
run-Truthful_example =
    run-Truthful (λ e. []) 4 default_cadence MailboxStatus.unknown
      (ticks (polled (ok 1)) 20 20 ∷ bumps 21 ∷ ticks (polled (err Client.rate_limited)) 30 30 ∷ [])
      idle idle-Truthful

-- A pipeline that counts the deposits and takes every one.
abbrev pipeline : InboundDispatch ℕ
pipeline = record {
  dispatch_attachment_chunk = λ n ciphertext. (n, false);
  dispatch_mailbox = λ n ciphertext. (n + 1, some ciphertext);
}

abbrev owner : Identity
owner = record { public = key; sign = λ m. m }

abbrev waiting : Row
waiting = record {
  deposit_id = 1 ∷ [];
  recipient_hash = key;
  ciphertext = 8 ∷ 8 ∷ [];
  deposited_at = 12;
  expires_at = 100;
}

abbrev serving : State
serving = record {
  deposits = waiting ∷ [];
  challenges = [];
  conn_rl = record { deposits = new 30 0; fetches = new 6 0 };
  global_rl = new 1_000 0;
}

abbrev draws : List Draw
draws =
    record { random = 2 ∷ []; now = 20; now_us = 6; hangs_up = false }
    ∷ record { random = 2 ∷ []; now = 20; now_us = 7; hangs_up = false }
    ∷ record { random = 3 ∷ []; now = 21; now_us = 8; hangs_up = false }
    ∷ record { random = 3 ∷ []; now = 21; now_us = 9; hangs_up = false }
    ∷ []
