-- ===== src/Transfers/Tests.antt =====
-- The transfers at concrete inputs, and the witnesses of their theorems.
use skattr.Base.{
  ℕ, suc, ◌+◌, ◌≤◌, ◌≡◌, refl, Bool, true, false, List, [], ◌∷◌, ◌++◌, none, Bytes, map, same,
  select, order_by, insert_before, arith,
}
use skattr.Transfers.{
  AttachmentStatus, set_status, Transfers, TerminalStatus, received_indices, mark_received,
  list_pending_in, peer_for, set_peer, insert, claim_terminal, rearm_failed_in,
}
use skattr.Transfers.Deposits.{
  DepositStatus, DepositDue, enqueue_all, mark_deposited, all_deposited,
}
use skattr.Transfers.Sweep.{Chunk, Sweep, get_chunk, sweep_row, run_chunk_sweep}
use skattr.Transfers.Failover.{Outcome, sweep_row-Outcome}
use skattr.Transfers.Claims.{
  Call, inserts, claims, rearms, receives, is_claim, is_arming, count, waiting, claims_bounded,
}

abbrev empty : Transfers
empty = record { rows = []; chunks = [] }

abbrev file : Bytes
file = 7 ∷ 8 ∷ []

-- Both lanes finish, the user retries the failed transfer, and both finish again.
abbrev two_lanes : List Call
two_lanes =
    inserts file true (1 ∷ []) 2 100
    ∷ receives file 1
    ∷ claims file TerminalStatus.failed
    ∷ claims file TerminalStatus.complete
    ∷ rearms file
    ∷ claims file TerminalStatus.complete
    ∷ claims file TerminalStatus.failed
    ∷ []

two_lanes-won : count (is_claim file) empty two_lanes ≡ 2
unfolding count insert mark_received claim_terminal rearm_failed_in select same
two_lanes-won = refl

two_lanes-armed : count (is_arming file) empty two_lanes ≡ 2
unfolding count insert mark_received claim_terminal rearm_failed_in select same
two_lanes-armed = refl

received_in_order :
    received_indices (mark_received (mark_received (mark_received empty file 2) file 0) file 2) file
    ≡ 0 ∷ 2 ∷ []
unfolding received_indices mark_received order_by insert_before select same
received_in_order = refl

-- The list of what is pending has no id that is not of 16 bytes.
lists_16 : list_pending_in (insert empty file true [] 1 0).0 ≡ []
unfolding list_pending_in insert select
lists_16 = refl

peer_of_32 : peer_for (set_peer (insert empty file true [] 1 0).0 file (3 ∷ [])) file ≡ none
unfolding peer_for set_peer insert select same
peer_of_32 = refl

claims_bounded_example :
    count (is_claim file) empty two_lanes
    ≤ waiting file empty.rows + count (is_arming file) empty two_lanes
unfolding select
claims_bounded_example = claims_bounded file empty two_lanes (omega arith)

-- Two chunks wait for a recipient with two mailboxes, of which the second takes what it gets.
abbrev id_16 : Bytes
id_16 = 1 ∷ 2 ∷ 3 ∷ 4 ∷ 5 ∷ 6 ∷ 7 ∷ 8 ∷ 9 ∷ 10 ∷ 11 ∷ 12 ∷ 13 ∷ 14 ∷ 15 ∷ 16 ∷ []

abbrev peer_32 : Bytes
peer_32 = id_16 ++ id_16

abbrev second_only : ℕ → (onion recipient_hash chunk : Bytes) → ℕ × Bool
second_only n onion hash chunk = (suc n, same onion (2 ∷ []))

abbrev two_onions : Bytes → List Bytes
two_onions peer = (1 ∷ []) ∷ (2 ∷ []) ∷ []

abbrev first_chunk : Chunk
first_chunk = record { attachment_id = id_16; chunk_index = 0; bytes = 70 ∷ [] }

abbrev second_chunk : Chunk
second_chunk = record { attachment_id = id_16; chunk_index = 1; bytes = 71 ∷ [] }

abbrev waiting_chunks : List Chunk → Sweep ℕ
waiting_chunks chunks = record {
  deposits = enqueue_all [] id_16 peer_32 2 0;
  transfers = (insert empty id_16 false [] 2 0).0;
  chunks = chunks;
  world = 0;
}

abbrev swept : List Chunk → Sweep ℕ
swept chunks = run_chunk_sweep second_only (λ x. x) two_onions (waiting_chunks chunks) 5 8

-- One chunk needs both mailboxes, the other only its primary one.
swept_all :
    ((swept (first_chunk ∷ second_chunk ∷ [])).world ≡ 3)
    × (map (λ r. r.status) (swept (first_chunk ∷ second_chunk ∷ [])).transfers.rows
        ≡ AttachmentStatus.complete ∷ [])
unfolding run_chunk_sweep enqueue_all insert select same order_by insert_before all_deposited
    mark_deposited set_status
swept_all = (refl, refl)

-- Without the first chunk the attachment is complete too; without the second it never is.
swept_missing :
    (map (λ r. r.status) (swept (second_chunk ∷ [])).transfers.rows
      ≡ AttachmentStatus.complete ∷ [])
    × (map (λ r. r.status) (swept (first_chunk ∷ [])).transfers.rows
        ≡ AttachmentStatus.pending ∷ [])
    × (map (λ r. r.status) (swept (first_chunk ∷ [])).deposits
        ≡ DepositStatus.deposited ∷ DepositStatus.deposited ∷ [])
unfolding run_chunk_sweep enqueue_all insert select same order_by insert_before all_deposited
    mark_deposited set_status
swept_missing = (refl, refl, refl)

abbrev first_due : DepositDue
first_due = record { attachment_id = id_16; chunk_index = 0; recipient = peer_32; attempts = 0 }

sweep_row-Outcome_example :
    Outcome second_only
      (λ x. x)
      (two_onions peer_32)
      (waiting_chunks (first_chunk ∷ []))
      first_due
      5
      (70 ∷ [])
      (sweep_row second_only (λ x. x) two_onions (waiting_chunks (first_chunk ∷ [])) first_due 5)
unfolding get_chunk same
sweep_row-Outcome_example =
    sweep_row-Outcome second_only (λ x. x) two_onions (waiting_chunks (first_chunk ∷ [])) first_due
      5 (70 ∷ []) refl refl
