-- ===== src/History/Updates.antt =====
-- crates/core/src/storage/messages.rs: the statements that change or delete rows.
use skattr.Base.{
  ℕ, ◌+◌, ◌-◌, Bool, true, false, not, ◌&&◌, List, [], ◌∷◌, Option, none, some, Bytes, length, drop,
  ltb, leb, ◌==◌, if◌then◌else◌, same, select, order_by,
}
use skattr.Wire.{Serde}
use skattr.Envelope.{Envelope}
use skattr.History.{Message, History, is_envelope, in_group, has_key}

-- `UPDATE … WHERE p`: the rows after it.
unfoldable pub update_where : (Message → Bool) → (Message → Message) → List Message → List Message
update_where p f [] = []
update_where p f (r ∷ rows) = (if p r then f r else r) ∷ update_where p f rows

abbrev pub is_null : Option ℕ → Bool
is_null none = true
is_null (some _) = false

-- `UPDATE … WHERE p`: the table after it, and whether a row was changed.
abbrev pub update_rows : (Message → Bool) → (Message → Message) → History → History × Bool
update_rows p f h = (record h { rows = update_where p f h.rows }, ltb 0 (length (select p h.rows)))

-- `envelope_id = ? AND sender = ?`
abbrev pub is_own : Bytes → Bytes → Message → Bool
is_own envelope_id self_pubkey r = is_envelope envelope_id r && same r.sender self_pubkey

abbrev pub is_undelivered : Bytes → Bytes → Message → Bool
is_undelivered envelope_id self_pubkey r =
    is_own envelope_id self_pubkey r && is_null r.delivered_at

unfoldable pub mark_delivered_by_envelope_id :
    History → (envelope_id self_pubkey : Bytes) → ℕ → History × Bool
mark_delivered_by_envelope_id h envelope_id self_pubkey delivered_at =
    update_rows (is_undelivered envelope_id self_pubkey)
      (λ r. record r { delivered_at = some delivered_at }) h

unfoldable pub mark_failed : History → (envelope_id self_pubkey reason : Bytes) → History × Bool
mark_failed h envelope_id self_pubkey reason =
    update_rows (is_undelivered envelope_id self_pubkey)
      (λ r. record r { failed_reason = some reason }) h

unfoldable pub mark_dismissed : History → (envelope_id self_pubkey : Bytes) → ℕ → History × Bool
mark_dismissed h envelope_id self_pubkey now =
    update_rows (is_own envelope_id self_pubkey) (λ r. record r { dismissed_at = some now }) h

abbrev pub has_id : ℕ → Message → Bool
has_id id r = r.id == id

unfoldable pub mark_delivered : History → ℕ → ℕ → History
mark_delivered h id delivered_at =
    (update_rows (has_id id) (λ r. record r { delivered_at = some delivered_at }) h).0

-- `query_row`, which takes the first row.
abbrev pub first : List Message → Option Message
first [] = none
first (r ∷ _) = some r

unfoldable pub delivery_outcome : History → Bytes → Option ℕ × Option Bytes
delivery_outcome h envelope_id = elim (first (select (is_envelope envelope_id) h.rows)) [
  | none ↦ (none, none)
  | some r ↦ (r.dismissed_at, r.failed_reason)
]

-- `DELETE … WHERE p`: the table after it, and the number of rows that went.
abbrev pub delete_rows : (Message → Bool) → History → History × ℕ
delete_rows p h =
    let rows = select (λ r. not (p r)) h.rows in
    (record h { rows = rows }, length h.rows - length rows)

abbrev pub is_before : Option Bytes → ℕ → Message → Bool
is_before none before r = ltb r.ts_daemon_recv before
is_before (some g) before r = in_group g r && ltb r.ts_daemon_recv before

unfoldable pub prune_before : History → Option Bytes → ℕ → History × ℕ
prune_before h group_id before_ts_recv = delete_rows (is_before group_id before_ts_recv) h

-- `ORDER BY id DESC`
abbrev pub later : Message → Message → Bool
later a b = leb b.id a.id

-- `LIMIT 1 OFFSET keep`, and `COALESCE(…, -1)`: no id is that low.
unfoldable pub cutoff : History → Bytes → ℕ → Option ℕ
cutoff h g keep = elim (drop keep (order_by later (select (in_group g) h.rows))) [
  | [] ↦ none
  | r ∷ _ ↦ some r.id
]

abbrev pub is_up_to : Bytes → Option ℕ → Message → Bool
is_up_to g none r = false
is_up_to g (some id) r = in_group g r && leb r.id id

unfoldable pub prune_keep_last : History → Bytes → ℕ → History × ℕ
unfolding cutoff
prune_keep_last h g keep = delete_rows (is_up_to g (cutoff h g keep)) h

unfoldable pub delete_by_group_in_tx : History → Bytes → History
delete_by_group_in_tx h g = (delete_rows (in_group g) h).0

unfoldable pub latest_for_group : History → Bytes → Option Message
latest_for_group h g = first (order_by later (select (in_group g) h.rows))

module _ (cbor : Serde Envelope) where
  abbrev pub lacks_envelope_id : Message → Bool
  lacks_envelope_id r = elim r.envelope_id [ none ↦ true | some _ ↦ false ]

  abbrev pub set_envelope_id : Bytes → Message → Message
  set_envelope_id eid r = record r { envelope_id = some eid }

  -- One row of the loop of `backfill_envelope_id`: a blob that does not decode is left, and a row
  -- whose new key is taken is deleted.
  unfoldable pub backfill_row : Message → List Message × ℕ → List Message × ℕ
  backfill_row c (rows, updated) = elim (cbor.from_reader c.body_blob) [
    | none ↦ (rows, updated)
    | some e ↦
        if length (select (has_key c.group_id e.id) rows) == 0
        then (update_where (has_id c.id) (set_envelope_id e.id) rows, updated + 1)
        else (select (λ r. not (has_id c.id r)) rows, updated)
  ]

  unfoldable pub backfill_loop : List Message → List Message × ℕ → List Message × ℕ
  backfill_loop [] acc = acc
  backfill_loop (c ∷ cs) acc = backfill_loop cs (backfill_row c acc)

  -- The table after it, and the number of rows that got their id. The rows stand in id order.
  unfoldable pub backfill_envelope_id : History → History × ℕ
  unfolding backfill_loop backfill_row
  backfill_envelope_id h =
      let (rows, updated) = backfill_loop (select lacks_envelope_id h.rows) (h.rows, 0) in
      (record h { rows = rows }, updated)
