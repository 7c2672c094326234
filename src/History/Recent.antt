-- ===== src/History/Recent.antt =====
-- Scrolling back through a conversation: `recent_messages` of crates/core/src/daemon/dispatch.rs.
-- The group of the contact is an argument, as for the export.
pub mod Records
pub mod Rising
pub mod Scrolling
use skattr.Base.{ℕ, List, [], ◌∷◌, Option, none, some, Bytes, length, ◌==◌, if◌then◌else◌}
use skattr.Base.Results.{Result, ok, err}
use skattr.Wire.{Serde}
use skattr.Envelope.{Envelope}
use skattr.History.{Message, History, recent, recent_before}
use skattr.History.Export.{MessageRecord, to_records, ExportError, contact_not_found}

pub record MessagesPage : Type 0 where
  pub records : List MessageRecord
  pub next_before_id : Option ℕ

-- `records.last().map(|r| r.row_id)`
unfoldable pub last_row_id : List MessageRecord → Option ℕ
last_row_id [] = none
last_row_id (r ∷ []) = some r.row_id
last_row_id (r ∷ x ∷ records) = last_row_id (x ∷ records)

unfoldable pub page_rows : History → Bytes → ℕ → Option ℕ → List Message
page_rows h g limit none = recent h g limit
page_rows h g limit (some b) = recent_before h g b limit

unfoldable pub to_page : ℕ → List MessageRecord → MessagesPage
unfolding last_row_id
to_page limit records = record {
  records = records;
  next_before_id = if length records == limit then last_row_id records else none;
}

module _ (cbor : Serde Envelope) (me peer : Bytes) where
  -- The answer to a request with `paged`; without it, the records alone are the answer.
  unfoldable pub recent_messages :
      History → Option Bytes → ℕ → Option ℕ → Result ExportError MessagesPage
  unfolding page_rows to_page
  recent_messages h none limit before_id = err contact_not_found
  recent_messages h (some []) limit before_id = err contact_not_found
  recent_messages h (some (b ∷ g)) limit before_id =
      ok (to_page limit (to_records cbor me peer (page_rows h (b ∷ g) limit before_id)))
