-- ===== src/Receiver.antt =====
-- crates/core/src/delivery/receiver.rs and crates/core/src/storage/seen_messages.rs: what becomes
-- of a decrypted envelope. Both tables lie in one database; a transaction that fails leaves it as
-- it was. Keys and ids have the lengths of their types, but for the group id, which is a slice. The
-- clock is not negative.
pub mod Window
pub mod Outcomes
pub mod Once
mod Tests
use skattr.Base.{
  ℕ, ◌*◌, Bool, not, ◌&&◌, List, [], ◌∷◌, ◌++◌, Bytes, length, ltb, ◌==◌, if◌then◌else◌, same,
  select,
}
use skattr.Base.Results.{Result, ok, err}
use skattr.Base.Int.{ℤ, pos, saturating_sub, saturating_abs}
use skattr.Wire.{Serde}
use skattr.Envelope.{Envelope}
use skattr.History.{History, InsertError, InsertParams, insert_in_tx}

abbrev pub replay_window_ms : ℕ
replay_window_ms = 60 * 60 * 1000

-- A row of `seen_messages`; the primary key is (sender, message_id).
pub record Seen : Type 0 where
  pub sender : Bytes
  pub message_id : Bytes
  pub seen_at : ℕ

abbrev pub is_seen : Bytes → Bytes → Seen → Bool
is_seen sender message_id s = same s.sender sender && same s.message_id message_id

-- `INSERT OR IGNORE`: the table after it, and whether the row is new.
unfoldable pub insert_seen : List Seen → (sender message_id : Bytes) → ℕ → List Seen × Bool
insert_seen t sender message_id seen_at =
    let s : Seen = record { sender = sender; message_id = message_id; seen_at = seen_at } in
    let is_new = length (select (is_seen sender message_id) t) == 0 in
    (if is_new then t ++ (s ∷ []) else t, is_new)

unfoldable pub contains : List Seen → (sender message_id : Bytes) → Bool
contains t sender message_id = ltb 0 (length (select (is_seen sender message_id) t))

unfoldable pub sweep_older_than : List Seen → ℕ → List Seen
sweep_older_than t cutoff = select (λ s. not (ltb s.seen_at cutoff)) t

pub record Database : Type 0 where
  pub history : History
  pub seen : List Seen

pub record New : Type 0 where
  pub envelope : Envelope
  pub row_id : ℕ
  pub sender : Bytes
  pub group_id : Bytes
  pub mls_generation : ℕ
  pub ts_daemon_recv : ℕ

pub data ReceiveOutcome : Type 0 where
  new : New → ReceiveOutcome
  duplicate rejected : ReceiveOutcome

pub data ReceiveError : Type 0 where
  group_id_length : ReceiveError
  insert_failed : InsertError → ReceiveError

-- The arguments but for the database.
pub record Arrival : Type 0 where
  pub sender : Bytes
  pub group_id : Bytes
  pub envelope : Envelope
  pub now_ms : ℕ
  pub mls_generation : ℕ
  pub ts_daemon_recv : ℕ
  pub enforce_ts_window : Bool

unfoldable pub outside_window : ℤ → ℕ → Bool
outside_window ts now_ms = ltb replay_window_ms (saturating_abs (saturating_sub ts (pos now_ms)))

abbrev pub to_insert : Arrival → InsertParams
to_insert a = record {
  group_id = a.group_id;
  sender = a.sender;
  envelope = a.envelope;
  mls_generation = a.mls_generation;
  ts_daemon_recv = a.ts_daemon_recv;
}

-- What `messages.insert_in_tx` gives, with the new `seen_messages`.
unfoldable pub on_insert :
    List Seen
    → Arrival
    → Result InsertError (History × ℕ)
    → Result ReceiveError (Database × ReceiveOutcome)
on_insert seen a (err e) = err (insert_failed e)
on_insert seen a (ok (h, row_id)) = ok (
  record { history = h; seen = seen },
  new (record {
    envelope = a.envelope;
    row_id = row_id;
    sender = a.sender;
    group_id = a.group_id;
    mls_generation = a.mls_generation;
    ts_daemon_recv = a.ts_daemon_recv;
  }),
)

-- `Pool::transaction`: an error rolls back.
unfoldable pub commit :
    Database
    → Result ReceiveError (Database × ReceiveOutcome)
    → Database × Result ReceiveError ReceiveOutcome
commit db (ok (db', o)) = (db', ok o)
commit db (err e) = (db, err e)

module _ (cbor : Serde Envelope) where
  unfoldable pub receive_in_tx :
      Database → Arrival → Result ReceiveError (Database × ReceiveOutcome)
  unfolding on_insert insert_seen outside_window
  receive_in_tx db a =
      let (seen', is_new) = insert_seen db.seen a.sender a.envelope.id a.now_ms in
      if a.enforce_ts_window && outside_window a.envelope.ts a.now_ms
      then ok (db, rejected)
      else if not is_new
      then ok (record db { seen = seen' }, duplicate)
      else if length a.group_id == 32
      then on_insert seen' a (insert_in_tx cbor db.history (to_insert a))
      else err group_id_length

  unfoldable pub receive : Database → Arrival → Database × Result ReceiveError ReceiveOutcome
  unfolding receive_in_tx commit
  receive db a = commit db (receive_in_tx db a)
