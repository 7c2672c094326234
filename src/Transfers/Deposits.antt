-- ===== src/Transfers/Deposits.antt =====
-- `AttachmentDepositRepo` of crates/core/src/storage/attachments.rs: which chunks of the files that
-- this node sends were deposited at a mailbox of the recipient.
use skattr.Base.{
  ℕ, zero, suc, Bool, true, false, not, ◌&&◌, List, [], ◌∷◌, ◌++◌, Bytes, length, take, map, leb,
  ◌==◌, if◌then◌else◌, same, select, order_by,
}

pub data DepositStatus : Type 0 where
  pending deposited : DepositStatus

unfoldable pub is_pending : DepositStatus → Bool
is_pending pending = true
is_pending deposited = false

-- A row of `attachment_deposits`; the key is the attachment with the index.
pub record DepositRow : Type 0 where
  pub attachment_id : Bytes
  pub chunk_index : ℕ
  pub recipient : Bytes
  pub attempts : ℕ
  pub next_retry_at : ℕ
  pub status : DepositStatus

pub record DepositDue : Type 0 where
  pub attachment_id : Bytes
  pub chunk_index : ℕ
  pub recipient : Bytes
  pub attempts : ℕ

abbrev pub is_deposit : Bytes → ℕ → DepositRow → Bool
is_deposit id index r = same r.attachment_id id && r.chunk_index == index

-- `INSERT OR IGNORE` for each index from `i` on.
unfoldable enqueue_from : List DepositRow → Bytes → Bytes → (i count at : ℕ) → List DepositRow
enqueue_from rows id recipient i zero at = rows
enqueue_from rows id recipient i (suc count) at =
    enqueue_from
      (if length (select (is_deposit id i) rows) == 0
        then rows
          ++ (record {
            attachment_id = id;
            chunk_index = i;
            recipient = recipient;
            attempts = 0;
            next_retry_at = at;
            status = pending;
          }
              ∷ [])
        else rows)
      id recipient (suc i) count at

unfoldable pub enqueue_all :
    List DepositRow → Bytes → Bytes → (total_chunks at : ℕ) → List DepositRow
unfolding enqueue_from
enqueue_all rows id recipient total_chunks at = enqueue_from rows id recipient 0 total_chunks at

abbrev is_due : ℕ → DepositRow → Bool
is_due now r = is_pending r.status && leb r.next_retry_at now

abbrev earlier : DepositRow → DepositRow → Bool
earlier a b = leb a.next_retry_at b.next_retry_at

abbrev to_due : DepositRow → DepositDue
to_due r = record {
  attachment_id = r.attachment_id;
  chunk_index = r.chunk_index;
  recipient = r.recipient;
  attempts = r.attempts;
}

-- The limit counts the rows of a malformed id or recipient, which are then left out.
unfoldable pub due : List DepositRow → ℕ → ℕ → List DepositDue
unfolding is_pending
due rows now limit = map to_due (
    select (λ r. length r.attachment_id == 16 && length r.recipient == 32)
      (take limit (order_by earlier (select (is_due now) rows))))

unfoldable update_deposit :
    Bytes → ℕ → (DepositRow → DepositRow) → List DepositRow → List DepositRow
update_deposit id index f rows = map (λ r. if is_deposit id index r then f r else r) rows

unfoldable pub mark_deposited : List DepositRow → Bytes → ℕ → List DepositRow
unfolding update_deposit
mark_deposited rows id index = update_deposit id index (λ r. record r { status = deposited }) rows

unfoldable pub reschedule : List DepositRow → Bytes → (index attempts at : ℕ) → List DepositRow
unfolding update_deposit
reschedule rows id index attempts at =
    update_deposit id index (λ r. record r { attempts = attempts; next_retry_at = at }) rows

abbrev pub is_left : Bytes → DepositRow → Bool
is_left id r = same r.attachment_id id && is_pending r.status

unfoldable pub all_deposited : List DepositRow → Bytes → Bool
unfolding is_pending
all_deposited rows id = length (select (is_left id) rows) == 0

unfoldable pub delete_for_attachment : List DepositRow → Bytes → List DepositRow
delete_for_attachment rows id = select (λ r. not (same r.attachment_id id)) rows
