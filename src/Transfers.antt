-- ===== src/Transfers.antt =====
-- crates/core/src/storage/attachments.rs: the table of the attachments that are sent and fetched, and
-- of the chunks received. The statements succeed but for the primary key; clocks are not negative.
pub mod Claims
pub mod Deposits
pub mod Failover
pub mod Sweep
mod Tests
use skattr.Base.{
  ℕ, Bool, true, false, not, ◌&&◌, List, [], ◌∷◌, ◌++◌, Option, none, some, Bytes, length, map, leb,
  ◌==◌, if◌then◌else◌, same, select, order_by,
}

pub data AttachmentStatus : Type 0 where
  pending complete failed : AttachmentStatus

-- A row of `attachments`; `attachment_id` is the primary key.
pub record AttachmentRow : Type 0 where
  pub attachment_id : Bytes
  pub inbound : Bool
  pub manifest : Bytes
  pub total_chunks : ℕ
  pub status : AttachmentStatus
  pub created_at : ℕ
  pub peer : Option Bytes

-- The rows of `attachments`, and those of `attachment_chunks`, which all say that a chunk is received.
pub record Transfers : Type 0 where
  pub rows : List AttachmentRow
  pub chunks : List (Bytes × ℕ)

pub data TerminalStatus : Type 0 where
  complete failed : TerminalStatus

-- `as_str`
unfoldable pub to_status : TerminalStatus → AttachmentStatus
to_status TerminalStatus.complete = AttachmentStatus.complete
to_status TerminalStatus.failed = AttachmentStatus.failed

unfoldable pub is_pending : AttachmentStatus → Bool
is_pending pending = true
is_pending AttachmentStatus.complete = false
is_pending AttachmentStatus.failed = false

unfoldable pub is_failed : AttachmentStatus → Bool
is_failed pending = false
is_failed AttachmentStatus.complete = false
is_failed AttachmentStatus.failed = true

abbrev pub has_attachment : Bytes → AttachmentRow → Bool
has_attachment id r = same r.attachment_id id

-- The `WHERE` clauses of `claim_terminal` and of `rearm_failed_in`.
abbrev pub is_waiting : Bytes → AttachmentRow → Bool
is_waiting id r = same r.attachment_id id && is_pending r.status

abbrev pub is_failed_in : Bytes → AttachmentRow → Bool
is_failed_in id r = same r.attachment_id id && (r.inbound && is_failed r.status)

abbrev pub with_status : AttachmentStatus → AttachmentRow → AttachmentRow
with_status s r = record r { status = s }

abbrev pub with_peer : Bytes → AttachmentRow → AttachmentRow
with_peer p r = record r { peer = some p }

-- `UPDATE … WHERE`
unfoldable pub update_where :
    (AttachmentRow → Bool)
    → (AttachmentRow → AttachmentRow)
    → List AttachmentRow
    → List AttachmentRow
update_where p f [] = []
update_where p f (r ∷ rows) = (if p r then f r else r) ∷ update_where p f rows

abbrev pub new_row : Bytes → Bool → Bytes → ℕ → ℕ → AttachmentRow
new_row id inbound manifest total_chunks now = record {
  attachment_id = id;
  inbound = inbound;
  manifest = manifest;
  total_chunks = total_chunks;
  status = pending;
  created_at = now;
  peer = none;
}

-- The flag says that the row was inserted: a second one with the id is an error.
unfoldable pub insert : Transfers → Bytes → Bool → Bytes → ℕ → ℕ → Transfers × Bool
insert t id inbound manifest total_chunks now =
    if length (select (has_attachment id) t.rows) == 0
    then (record t { rows = t.rows ++ (new_row id inbound manifest total_chunks now ∷ []) }, true)
    else (t, false)

unfoldable pub first_row : List AttachmentRow → Option AttachmentRow
first_row [] = none
first_row (r ∷ rows) = some r

unfoldable pub get : Transfers → Bytes → Option AttachmentRow
unfolding first_row
get t id = first_row (select (has_attachment id) t.rows)

abbrev pub is_chunk : Bytes → ℕ → Bytes × ℕ → Bool
is_chunk id index c = same c.0 id && c.1 == index

unfoldable pub mark_received : Transfers → Bytes → ℕ → Transfers
mark_received t id index = record t {
  chunks = select (λ c. not (is_chunk id index c)) t.chunks ++ ((id, index) ∷ []);
}

unfoldable pub received_indices : Transfers → Bytes → List ℕ
received_indices t id = order_by leb (map (λ c. c.1) (select (λ c. same c.0 id) t.chunks))

-- Only the call that moves the row out of `pending` is told so.
unfoldable pub claim_terminal : Transfers → Bytes → TerminalStatus → Transfers × Bool
unfolding update_where to_status is_pending
claim_terminal t id s = (
  record t { rows = update_where (is_waiting id) (with_status (to_status s)) t.rows },
  length (select (is_waiting id) t.rows) == 1,
)

unfoldable pub rearm_failed_in : Transfers → Bytes → Transfers × Bool
unfolding update_where is_failed
rearm_failed_in t id = (
  record t { rows = update_where (is_failed_in id) (with_status pending) t.rows },
  length (select (is_failed_in id) t.rows) == 1,
)

unfoldable pub set_status : Transfers → Bytes → AttachmentStatus → Transfers
unfolding update_where
set_status t id s = record t { rows = update_where (has_attachment id) (with_status s) t.rows }

unfoldable pub list_pending_in : Transfers → List (Bytes × Bytes)
unfolding is_pending
list_pending_in t =
    map (λ r. (r.attachment_id, r.manifest))
      (select (λ r. r.inbound && (is_pending r.status && length r.attachment_id == 16)) t.rows)

unfoldable pub all_ids : Transfers → List Bytes
all_ids t = select (λ id. length id == 16) (map (λ r. r.attachment_id) t.rows)

unfoldable pub set_peer : Transfers → Bytes → Bytes → Transfers
unfolding update_where
set_peer t id p = record t { rows = update_where (has_attachment id) (with_peer p) t.rows }

-- The peer of a row, if it has 32 bytes.
unfoldable pub peer_of : Option AttachmentRow → Option Bytes
peer_of none = none
peer_of (some r) = elim r.peer [ none ↦ none | some p ↦ if length p == 32 then some p else none ]

unfoldable pub peer_for : Transfers → Bytes → Option Bytes
unfolding get peer_of
peer_for t id = peer_of (get t id)

unfoldable pub delete : Transfers → Bytes → Transfers
delete t id = record {
  rows = select (λ r. not (has_attachment id r)) t.rows;
  chunks = select (λ c. not (same c.0 id)) t.chunks;
}
