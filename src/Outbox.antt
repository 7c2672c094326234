-- ===== src/Outbox.antt =====
-- crates/core/src/storage/outbox.rs: the table of messages that wait for delivery. A table is the
-- list of its rows in the order of their ids, with the last id that was given out. The statements
-- of SQLite succeed, but for the unique index on (target, message_id, target_kind, mailbox_id).
-- The columns that `map_row` reads have the types that the inserts gave them.
pub mod Enqueue
pub mod Due
pub mod Updates
pub mod Settle
mod Tests
use skattr.Base.{
  ℕ, suc, ◌+◌, ◌-◌, ◌^◌, Bool, true, false, not, ◌&&◌, List, [], ◌∷◌, ◌++◌, Option, none, some,
  Bytes, map, length, take, min, ◌==◌, leb, if◌then◌else◌, same, select, sort_by,
}

pub data OutboxTargetKind : Type 0 where
  direct mailbox : OutboxTargetKind

-- `==` on the kinds, as `as_sql` spells them.
unfoldable pub same_kind : OutboxTargetKind → OutboxTargetKind → Bool
same_kind direct direct = true
same_kind mailbox mailbox = true
same_kind _ _ = false

pub data InsertOutcome : Type 0 where
  inserted already_present : InsertOutcome

pub record Row : Type 0 where
  pub id : ℕ
  pub target : Bytes
  pub payload : Bytes
  pub message_id : Bytes
  pub attempts : ℕ
  pub next_retry_at : ℕ
  pub target_kind : OutboxTargetKind
  pub mailbox_id : ℕ

pub record OutboxRow : Type 0 where
  pub id : ℕ
  pub target : Bytes
  pub payload : Bytes
  pub message_id : Bytes
  pub attempts : ℕ
  pub target_kind : OutboxTargetKind
  pub mailbox_id : ℕ

pub record Outbox : Type 0 where
  pub rows : List Row
  pub last_id : ℕ

abbrev pub empty : Outbox
empty = record { rows = []; last_id = 0 }

-- `attempts` saturates at `u32::MAX`.
abbrev pub map_row : Row → OutboxRow
map_row r = record {
  id = r.id;
  target = r.target;
  payload = r.payload;
  message_id = r.message_id;
  attempts = min r.attempts (2 ^ 32 - 1);
  target_kind = r.target_kind;
  mailbox_id = r.mailbox_id;
}

-- The columns of the unique index.
unfoldable pub has_key : Bytes → Bytes → OutboxTargetKind → ℕ → Row → Bool
has_key target message_id kind mailbox_id r =
    same r.target target
    && same r.message_id message_id
    && same_kind r.target_kind kind
    && r.mailbox_id == mailbox_id

-- The row that an `INSERT` makes.
abbrev pub new_row :
    ℕ
    → (target message_id payload : Bytes) (next_retry_at : ℕ) (kind : OutboxTargetKind)
      (mailbox_id : ℕ)
    → Row
new_row id target message_id payload next_retry_at kind mailbox_id = record {
  id = id;
  target = target;
  payload = payload;
  message_id = message_id;
  attempts = 0;
  next_retry_at = next_retry_at;
  target_kind = kind;
  mailbox_id = mailbox_id;
}

-- `INSERT … ON CONFLICT … DO NOTHING`: the table after it, and the id of a new row.
unfoldable pub insert_row :
    Outbox
    → (target message_id payload : Bytes) (next_retry_at : ℕ) (kind : OutboxTargetKind)
      (mailbox_id : ℕ)
    → Outbox × Option ℕ
insert_row b target message_id payload next_retry_at kind mailbox_id =
    let id = suc b.last_id in
    let r = new_row id target message_id payload next_retry_at kind mailbox_id in
    if length (select (has_key target message_id kind mailbox_id) b.rows) == 0
    then (record { rows = b.rows ++ (r ∷ []); last_id = id }, some id)
    else (b, none)

abbrev outcome : Option ℕ → InsertOutcome
outcome (some _) = inserted
outcome none = already_present

-- `insert` and `insert_in_tx`
unfoldable pub insert : Outbox → (target message_id payload : Bytes) → ℕ → Outbox × Option ℕ
unfolding insert_row
insert b target message_id payload next_retry_at =
    insert_row b target message_id payload next_retry_at direct 0

unfoldable pub insert_direct :
    Outbox → (target message_id payload : Bytes) → ℕ → Outbox × InsertOutcome
unfolding insert_row
insert_direct b target message_id payload next_retry_at =
    let (b', id) = insert_row b target message_id payload next_retry_at direct 0 in (b', outcome id)

unfoldable pub insert_for_mailbox :
    Outbox → (target message_id : Bytes) → ℕ → Bytes → ℕ → Outbox × InsertOutcome
unfolding insert_row
insert_for_mailbox b target message_id mailbox_id payload next_retry_at =
    let (b', id) = insert_row b target message_id payload next_retry_at mailbox mailbox_id in
    (b', outcome id)

-- The first row of a query, if there is one.
abbrev first : List Row → Option Row
first [] = none
first (r ∷ _) = some r

abbrev pub has_id : ℕ → Row → Bool
has_id id r = r.id == id

unfoldable pub get : Outbox → ℕ → Option OutboxRow
get b id = elim (first (select (has_id id) b.rows)) [ none ↦ none | some r ↦ some (map_row r) ]

abbrev pub retry_at : Row → ℕ
retry_at r = r.next_retry_at

-- `WHERE next_retry_at <= now AND … ORDER BY next_retry_at`, of the rows that `p` selects.
abbrev pub is_due : (Row → Bool) → ℕ → Row → Bool
is_due p now r = leb r.next_retry_at now && p r

unfoldable pub due_rows : (Row → Bool) → Outbox → ℕ → List Row
due_rows p b now = sort_by retry_at (select (is_due p now) b.rows)

abbrev pub is_mailbox : Row → Bool
is_mailbox r = same_kind r.target_kind mailbox

abbrev pub is_direct_for : Bytes → Row → Bool
is_direct_for target r = same r.target target && same_kind r.target_kind direct

unfoldable pub list_due : Outbox → ℕ → List OutboxRow
list_due b now = map map_row (due_rows (λ r. true) b now)

-- The limit fits an i64.
unfoldable pub due : Outbox → ℕ → ℕ → List OutboxRow
due b now limit = map map_row (take limit (due_rows (λ r. true) b now))

unfoldable pub due_mailbox : Outbox → ℕ → ℕ → List OutboxRow
due_mailbox b now limit = map map_row (take limit (due_rows is_mailbox b now))

unfoldable pub due_direct_for : Outbox → Bytes → ℕ → ℕ → List OutboxRow
due_direct_for b target now limit = map map_row (take limit (due_rows (is_direct_for target) b now))

-- `SELECT DISTINCT`: each target once.
unfoldable pub distinct : List Row → List Bytes
distinct [] = []
distinct (r ∷ rows) = r.target ∷ select (λ t. not (same t r.target)) (distinct rows)

unfoldable pub direct_targets : Outbox → List Bytes
direct_targets b = distinct (select (λ r. same_kind r.target_kind direct) b.rows)

unfoldable pub find_direct_id : Outbox → Bytes → Bytes → Option ℕ
find_direct_id b target message_id =
    elim (first (select (λ r. is_direct_for target r && same r.message_id message_id) b.rows)) [
      | none ↦ none
      | some r ↦ some r.id
    ]

-- `DELETE … WHERE p`: the table after it, and whether a row went.
abbrev pub delete_where : (Row → Bool) → Outbox → Outbox × Bool
delete_where p b =
    let rows = select (λ r. not (p r)) b.rows in
    (record { rows = rows; last_id = b.last_id }, not (length rows == length b.rows))

unfoldable pub delete_by_target : Outbox → Bytes → Outbox
delete_by_target b target = (delete_where (λ r. same r.target target) b).0

unfoldable pub delete_by_id : Outbox → ℕ → Outbox × Bool
delete_by_id b id = delete_where (has_id id) b

abbrev pub is_message : Bytes → Bytes → Row → Bool
is_message target message_id r = same r.target target && same r.message_id message_id

unfoldable pub ack_by_message_id : Outbox → Bytes → Bytes → Outbox × Bool
ack_by_message_id b target message_id = delete_where (is_message target message_id) b

-- `UPDATE … WHERE id = …` with what it makes of a row.
unfoldable pub update_id : ℕ → (Row → Row) → List Row → List Row
update_id id f [] = []
update_id id f (r ∷ rows) = (if has_id id r then f r else r) ∷ update_id id f rows

abbrev pub to_mailbox : ℕ → Row → Row
to_mailbox mailbox_id r = record r { target_kind = mailbox; mailbox_id = mailbox_id }

-- The index refuses the update if another row has the new key: an error of the storage.
pub data UpdateError : Type 0 where
  no_row conflict : UpdateError

pub data Updated : Type 0 where
  done : Outbox → Updated
  failed : UpdateError → Updated

abbrev pub clashes : ℕ → ℕ → Row → Row → Bool
clashes id mailbox_id r x = not (has_id id x) && has_key r.target r.message_id mailbox mailbox_id x

unfoldable pub set_mailbox_target : Outbox → ℕ → ℕ → Updated
set_mailbox_target b row_id mailbox_id = elim (first (select (has_id row_id) b.rows)) [
  | none ↦ failed no_row
  | some r ↦
      if length (select (clashes row_id mailbox_id r) b.rows) == 0
      then done
          (record { rows = update_id row_id (to_mailbox mailbox_id) b.rows; last_id = b.last_id })
      else failed conflict
]

abbrev pub later : ℕ → Row → Row
later next_retry_at r = record r { attempts = r.attempts + 1; next_retry_at = next_retry_at }

unfoldable pub reschedule : Outbox → ℕ → ℕ → Outbox
reschedule b id next_retry_at = record {
  rows = update_id id (later next_retry_at) b.rows;
  last_id = b.last_id;
}
