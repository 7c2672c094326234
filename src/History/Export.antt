-- ===== src/History/Export.antt =====
-- Exporting a conversation: `export_history` of crates/core/src/daemon/dispatch.rs, with
-- `MessageRecord` of crates/core/src/daemon/commands.rs, and the loop over its pages in
-- crates/cli/src/main.rs. The group of the contact is an argument; the output is the list of the
-- records written. No message is stored between two pages.
pub mod Paging
use skattr.Base.{
  ℕ, zero, suc, Bool, true, false, List, [], ◌∷◌, ◌++◌, Option, none, some, Bytes, length, min, ltb,
  leb, ◌&&◌, ◌==◌, if◌then◌else◌, same,
}
use skattr.Base.Results.{Result, ok, err}
use skattr.Base.Int.{ℤ}
use skattr.Wire.{Serde}
use skattr.Envelope.{Envelope, Kind}
use skattr.History.{Message, History, export_page}

pub data Direction : Type 0 where
  incoming outgoing : Direction

pub record MessageRecord : Type 0 where
  pub row_id : ℕ
  pub message_id : Bytes
  pub contact : Bytes
  pub direction : Direction
  pub kind : Kind
  pub mls_generation : ℕ
  pub ts_daemon_recv : ℕ
  pub ts_envelope : ℤ
  pub delivered_at : Option ℕ
  pub dismissed_at : Option ℕ
  pub failed_reason : Option Bytes

-- `project`, then `with_persisted_status`.
unfoldable pub project : Message → Envelope → (contact : Bytes) → Direction → MessageRecord
project r e contact direction = record {
  row_id = r.id;
  message_id = e.id;
  contact = contact;
  direction = direction;
  kind = e.kind;
  mls_generation = r.mls_generation;
  ts_daemon_recv = r.ts_daemon_recv;
  ts_envelope = e.ts;
  delivered_at = r.delivered_at;
  dismissed_at = r.dismissed_at;
  failed_reason = r.failed_reason;
}

abbrev pub export_page_max : ℕ
export_page_max = 1000

pub data ExportError : Type 0 where
  contact_not_found : ExportError

pub record ExportPage : Type 0 where
  pub records : List MessageRecord
  pub next_after_id : Option ℕ

-- `rows.last()`
unfoldable pub last_id : List Message → Option ℕ
last_id [] = none
last_id (r ∷ []) = some r.id
last_id (r ∷ x ∷ rows) = last_id (x ∷ rows)

abbrev pub direction_of : Bytes → Message → Direction
direction_of me r = if same r.sender me then outgoing else incoming

-- The body of the loop of the command line, on the answer to a request, given the rounds that
-- follow; `none` means that the fuel ran out, `some (err …)` that the program exits.
abbrev pub Export : Type 0
Export = Option (Result ExportError (List MessageRecord))

unfoldable pub prepend : List MessageRecord → Export → Export
prepend records none = none
prepend records (some (err e)) = some (err e)
prepend records (some (ok more)) = some (ok (records ++ more))

unfoldable pub after_page : List MessageRecord → Option ℕ → (Option ℕ → Export) → Export
unfolding prepend
after_page records none loop = some (ok records)
after_page records (some next) loop = prepend records (loop (some next))

unfoldable pub on_answer : Result ExportError ExportPage → (Option ℕ → Export) → Export
unfolding after_page
on_answer (err e) loop = some (err e)
on_answer (ok page) loop = after_page page.records page.next_after_id loop

module _ (cbor : Serde Envelope) (me contact : Bytes) where
  -- The loop over the rows: one whose blob does not decode is skipped.
  unfoldable pub to_records : List Message → List MessageRecord
  unfolding project
  to_records [] = []
  to_records (r ∷ rows) = elim (cbor.from_reader r.body_blob) [
    | none ↦ to_records rows
    | some e ↦ project r e contact (direction_of me r) ∷ to_records rows
  ]

  -- An empty id stands for no group.
  unfoldable pub export_history :
      History → Option Bytes → Option ℕ → ℕ → Result ExportError ExportPage
  unfolding last_id to_records
  export_history h none after_id limit = err contact_not_found
  export_history h (some []) after_id limit = err contact_not_found
  export_history h (some (b ∷ g)) after_id limit =
      let lim = min limit export_page_max in
      let rows = export_page h (b ∷ g) after_id lim in
      ok (record {
        records = to_records rows;
        next_after_id = if (length rows == lim) && ltb 0 lim then last_id rows else none;
      })

  unfoldable pub export_loop : ℕ → History → Option Bytes → Option ℕ → Export
  unfolding on_answer
  export_loop zero h g after_id = none
  export_loop (suc fuel) h g after_id =
      on_answer (export_history h g after_id 1000) (export_loop fuel h g)
