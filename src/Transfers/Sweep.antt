-- ===== src/Transfers/Sweep.antt =====
-- `run_chunk_sweep` of crates/core/src/delivery/chunk_sweep.rs: the chunks that are due go to the
-- mailboxes of their recipients. The mailboxes that a contact has and the chunk files are data here; a
-- connection that fails and a deposit that is refused are one answer of the network.
use skattr.Base.{
  ℕ, zero, suc, ◌+◌, ◌-◌, ◌%◌, ◌^◌, min, Bool, true, false, not, ◌&&◌, List, [], ◌∷◌, ◌++◌, Option,
  none, some, Bytes, length, take, drop, ◌==◌, if◌then◌else◌, same, select,
}
use skattr.Transfers.{AttachmentStatus, Transfers, set_status}
use skattr.Transfers.Deposits.{
  DepositRow, DepositDue, due, mark_deposited, reschedule, all_deposited, delete_for_attachment,
}

-- The element at `i`, in place of an index that is in bounds.
unfoldable pub at_index : List ℕ → ℕ → ℕ
at_index [] i = 0
at_index (x ∷ xs) zero = x
at_index (x ∷ xs) (suc i) = at_index xs i

abbrev pub backoff_table : List ℕ
backoff_table = 15_000 ∷ 60_000 ∷ 300_000 ∷ 900_000 ∷ []

-- `BACKOFF_MS[(attempts as usize).min(BACKOFF_MS.len()) - 1]`, for one attempt at least
unfoldable pub backoff_ms : ℕ → ℕ
unfolding at_index
backoff_ms attempts = at_index backoff_table (min attempts (length backoff_table) - 1)

pub record Chunk : Type 0 where
  pub attachment_id : Bytes
  pub chunk_index : ℕ
  pub bytes : Bytes

-- The tables, the chunk files, and the rest of the world.
pub record Sweep (W : Type 0) : Type 0 where
  pub deposits : List DepositRow
  pub transfers : Transfers
  pub chunks : List Chunk
  pub world : W

unfoldable pub get_chunk : List Chunk → Bytes → ℕ → Option Bytes
get_chunk [] id index = none
get_chunk (c ∷ chunks) id index =
    if same c.attachment_id id && c.chunk_index == index
    then some c.bytes
    else get_chunk chunks id index

-- The mailboxes from the primary one on, and then those before it: `(primary + offset) % n`.
unfoldable pub rotate : ℕ → List Bytes → List Bytes
rotate primary onions = drop primary onions ++ take primary onions

-- `attempts.saturating_add(1)`
abbrev pub next_attempt : ℕ → ℕ
next_attempt n = min (n + 1) (2 ^ 32 - 1)

module _ {W : Type 0} (deposit : W → (onion recipient_hash chunk : Bytes) → W × Bool) where
  -- The first mailbox that takes the chunk ends the walk.
  unfoldable pub walk : W → List Bytes → Bytes → Bytes → W × Bool
  walk w [] hash chunk = (w, false)
  walk w (onion ∷ onions) hash chunk =
      let (w', taken) = deposit w onion hash chunk in
      let rest = walk w' onions hash chunk in if taken then (w', true) else rest

  abbrev pub give_up : Sweep W → DepositDue → ℕ → Sweep W
  give_up s row now =
      let attempts = next_attempt row.attempts in
      record s {
        deposits =
            reschedule s.deposits row.attachment_id row.chunk_index attempts
              (now + backoff_ms attempts);
      }

  -- After the last chunk the rows and the files go, and the attachment is complete.
  unfoldable pub finish : Sweep W → Bytes → Sweep W
  finish s id =
      if all_deposited s.deposits id
      then record {
        deposits = delete_for_attachment s.deposits id;
        transfers = set_status s.transfers id AttachmentStatus.complete;
        chunks = select (λ c. not (same c.attachment_id id)) s.chunks;
        world = s.world;
      }
      else s

  unfoldable pub on_walk : Sweep W → DepositDue → ℕ → W × Bool → Sweep W
  unfolding finish
  on_walk s row now (w, false) = give_up (record s { world = w }) row now
  on_walk s row now (w, true) =
      finish
        (record s {
          deposits = mark_deposited s.deposits row.attachment_id row.chunk_index;
          world = w;
        })
        row.attachment_id

  unfoldable pub on_chunk :
      (Bytes → Bytes) → List Bytes → Sweep W → DepositDue → ℕ → Option Bytes → Sweep W
  unfolding walk on_walk rotate
  on_chunk sha256 onions s row now none = record s {
    deposits = mark_deposited s.deposits row.attachment_id row.chunk_index;
  }
  on_chunk sha256 onions s row now (some chunk) =
      on_walk s row now (
        walk s.world (rotate (row.chunk_index % length onions) onions) (sha256 row.recipient) chunk)

  unfoldable pub sweep_row :
      (Bytes → Bytes) → (Bytes → List Bytes) → Sweep W → DepositDue → ℕ → Sweep W
  unfolding get_chunk on_chunk
  sweep_row sha256 mailboxes s row now =
      let onions = mailboxes row.recipient in
      if length onions == 0
      then give_up s row now
      else on_chunk sha256 onions s row now (get_chunk s.chunks row.attachment_id row.chunk_index)

  unfoldable pub sweep_rows :
      (Bytes → Bytes) → (Bytes → List Bytes) → Sweep W → List DepositDue → ℕ → Sweep W
  unfolding sweep_row
  sweep_rows sha256 mailboxes s [] now = s
  sweep_rows sha256 mailboxes s (row ∷ rows) now =
      sweep_rows sha256 mailboxes (sweep_row sha256 mailboxes s row now) rows now

  unfoldable pub run_chunk_sweep :
      (Bytes → Bytes) → (Bytes → List Bytes) → Sweep W → (now batch : ℕ) → Sweep W
  unfolding due sweep_rows
  run_chunk_sweep sha256 mailboxes s now batch =
      sweep_rows sha256 mailboxes s (due s.deposits now batch) now
