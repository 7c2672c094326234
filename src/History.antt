-- ===== src/History.antt =====
-- crates/core/src/storage/messages.rs and crates/core/src/storage/read_state.rs: the message
-- history. A table is the list of its rows in the order of insertion, with the last id that was
-- given out (AUTOINCREMENT). SQLite's statements succeed, but for the unique index on (group_id,
-- envelope_id), in which two NULLs differ. The full-text index is not modelled; limits and row ids
-- fit an i64, and clocks are not negative. CBOR is a parameter.
pub mod Updates
pub mod Rows
pub mod Validity
pub mod Insert
pub mod Delivery
pub mod Descending
pub mod Pruning
pub mod Recent
pub mod Unread
pub mod Export
pub mod Tests
use skattr.Base.{
  ℕ, suc, ◌+◌, ◌-◌, ◌^◌, Bool, true, false, not, ◌&&◌, ◌||◌, List, [], ◌∷◌, ◌++◌, Option, none,
  some, Bytes, length, take, drop, min, ltb, leb, ◌==◌, if◌then◌else◌, same, select, order_by,
}
use skattr.Base.Results.{Result, ok, err, ◌>>=◌}
use skattr.Base.Int.{ℤ}
use skattr.Wire.{Serde}
use skattr.Envelope.{Envelope, Kind}

-- The column `kind`.
pub data KindName : Type 0 where
  text file reaction edit delete typing : KindName

pub record Message : Type 0 where
  pub id : ℕ
  pub group_id : Bytes
  pub sender : Bytes
  pub envelope_id : Option Bytes
  pub kind : KindName
  pub body_blob : Bytes
  pub body_text : Option Bytes
  pub ts : ℤ
  pub delivered_at : Option ℕ
  pub mls_generation : ℕ
  pub ts_daemon_recv : ℕ
  pub dismissed_at : Option ℕ
  pub failed_reason : Option Bytes

pub record History : Type 0 where
  pub rows : List Message
  pub last_id : ℕ
  pub read_state : List (Bytes × ℕ)

abbrev pub empty : History
empty = record { rows = []; last_id = 0; read_state = [] }

-- `unreachable` is a panic.
pub data InsertError : Type 0 where
  cbor_encode duplicate_message unreachable : InsertError

pub record InsertParams : Type 0 where
  pub group_id : Bytes
  pub sender : Bytes
  pub envelope : Envelope
  pub mls_generation : ℕ
  pub ts_daemon_recv : ℕ

unfoldable pub kind_name : Kind → Result InsertError KindName
kind_name (Kind.text _) = ok KindName.text
kind_name (Kind.file _) = ok KindName.file
kind_name (Kind.reaction _ _) = ok KindName.reaction
kind_name (Kind.edit _ _) = ok KindName.edit
kind_name (Kind.delete _) = ok KindName.delete
kind_name Kind.typing = ok KindName.typing
kind_name (Kind.contact_card_update _) = err unreachable

unfoldable pub text_of : Kind → Option Bytes
text_of (Kind.text body) = some body
text_of _ = none

-- Does the column hold this id?
abbrev pub is_envelope : Bytes → Message → Bool
is_envelope id r = elim r.envelope_id [ none ↦ false | some x ↦ same x id ]

abbrev pub in_group : Bytes → Message → Bool
in_group g r = same r.group_id g

-- The unique index.
abbrev pub has_key : Bytes → Bytes → Message → Bool
has_key g id r = in_group g r && is_envelope id r

-- An i64 for the u64.
abbrev pub generation : ℕ → ℕ
generation g = min g (2 ^ 63 - 1)

module _ (cbor : Serde Envelope) where
  abbrev pub encode : Envelope → Result InsertError Bytes
  encode e = elim (cbor.into_writer e) [ none ↦ err cbor_encode | some b ↦ ok b ]

  abbrev pub new_row : ℕ → InsertParams → KindName → Bytes → Message
  new_row id p kind body = record {
    id = id;
    group_id = p.group_id;
    sender = p.sender;
    envelope_id = some p.envelope.id;
    kind = kind;
    body_blob = body;
    body_text = text_of p.envelope.kind;
    ts = p.envelope.ts;
    delivered_at = none;
    mls_generation = generation p.mls_generation;
    ts_daemon_recv = p.ts_daemon_recv;
    dismissed_at = none;
    failed_reason = none;
  }

  -- `insert_in_tx`, and `insert`, which is this in a transaction of its own: the table after it
  -- with the id of the row, or an error.
  unfoldable pub insert_in_tx : History → InsertParams → Result InsertError (History × ℕ)
  unfolding kind_name text_of
  insert_in_tx h p = do
    body ← encode p.envelope
    kind ← kind_name p.envelope.kind
    let id = suc h.last_id
    if length (select (has_key p.group_id p.envelope.id) h.rows) == 0
        then ok (record h { rows = h.rows ++ (new_row id p kind body ∷ []); last_id = id }, id)
        else err duplicate_message

-- `ORDER BY mls_generation DESC, id DESC`
abbrev pub newer : Message → Message → Bool
newer a b =
    ltb b.mls_generation a.mls_generation || (a.mls_generation == b.mls_generation && leb b.id a.id)

unfoldable pub recent : History → Bytes → ℕ → List Message
recent h g limit = take limit (order_by newer (select (in_group g) h.rows))

abbrev pub in_group_before : Bytes → ℕ → Message → Bool
in_group_before g before_id r = in_group g r && ltb r.id before_id

unfoldable pub recent_before : History → Bytes → ℕ → ℕ → List Message
recent_before h g before_id limit =
    take limit (order_by newer (select (in_group_before g before_id) h.rows))

-- The cursor of a group.
unfoldable pub cursor : Bytes → List (Bytes × ℕ) → Option ℕ
cursor g [] = none
cursor g ((k, id) ∷ cs) = if same k g then some id else cursor g cs

abbrev pub in_group_after : Bytes → ℕ → Message → Bool
in_group_after g after_id r = in_group g r && ltb after_id r.id

-- The condition of the count: without a cursor, every row of the group is unread.
abbrev pub is_unread : Option ℕ → Bytes → Message → Bool
is_unread none g r = in_group g r
is_unread (some c) g r = in_group_after g c r

unfoldable pub unread_count : History → Bytes → ℕ
unread_count h g = length (select (is_unread (cursor g h.read_state) g) h.rows)

-- `ReadStateRepo::set`, which `mark_read` calls: the group has one row.
unfoldable pub mark_read : History → Bytes → ℕ → History
mark_read h g up_to = record h {
  read_state = (g, up_to) ∷ select (λ c. not (same c.0 g)) h.read_state;
}

-- `ORDER BY id ASC`; rows have ids from 1 on, so that 0 stands for no `after_id`.
abbrev pub older : Message → Message → Bool
older a b = leb a.id b.id

unfoldable pub export_page : History → Bytes → Option ℕ → ℕ → List Message
export_page h g after_id limit =
    let after : ℕ = elim after_id [ none ↦ 0 | some n ↦ n ] in
    take limit (order_by older (select (in_group_after g after) h.rows))
