-- ===== src/Receiver/Outcomes.antt =====
-- The outcomes of `receive`, each with what it says of the envelope and does to the database.
use skattr.Base.{
  ◌≡◌, ◌≢◌, refl, inl, inr, Bool, true, false, ◌&&◌, [], ◌∷◌, ◌++◌, length, ◌==◌, select, arith,
  Bool-cases,
}
use skattr.Base.Results.{Result, ok, err, Result-cases}
use skattr.Wire.{Serde}
use skattr.Envelope.{Envelope}
use skattr.History.{insert_in_tx}
use skattr.Receiver.{
  Seen, is_seen, contains, Database, ReceiveOutcome, new, duplicate, rejected, ReceiveError,
  group_id_length, insert_failed, Arrival, outside_window, to_insert, receive,
}

module _ (cbor : Serde Envelope) where
  abbrev pub is_out : Arrival → Bool
  is_out a = a.enforce_ts_window && outside_window a.envelope.ts a.now_ms

  abbrev pub was_seen : Database → Arrival → Bool
  was_seen db a = contains db.seen a.sender a.envelope.id

  abbrev pub mark : Arrival → Seen
  mark a = record { sender = a.sender; message_id = a.envelope.id; seen_at = a.now_ms }

  -- What an outcome says, of the database before and after.
  abbrev pub Meaning : Database → Arrival → Database → Result ReceiveError ReceiveOutcome → Type 0
  Meaning db a db' (ok rejected) = (is_out a ≡ true) × (db' ≡ db)
  Meaning db a db' (ok duplicate) = (is_out a ≡ false) × (was_seen db a ≡ true) × (db' ≡ db)
  Meaning db a db' (ok (new n)) =
      (is_out a ≡ false)
      × (was_seen db a ≡ false)
      × (length a.group_id ≡ 32)
      × (db'.seen ≡ db.seen ++ (mark a ∷ []))
      × (insert_in_tx cbor db.history (to_insert a) ≡ ok (db'.history, n.row_id))
  Meaning db a db' (err group_id_length) =
      (is_out a ≡ false) × (was_seen db a ≡ false) × (length a.group_id ≢ 32) × (db' ≡ db)
  Meaning db a db' (err (insert_failed e)) =
      (is_out a ≡ false)
      × (was_seen db a ≡ false)
      × (insert_in_tx cbor db.history (to_insert a) ≡ err e)
      × (db' ≡ db)

  -- Each outcome means what it says: an envelope is rejected exactly when the window is enforced and
  -- it lies outside, a duplicate exactly when its sender's id was seen, and new when the message was
  -- stored and the id was marked; every other outcome, an error included, leaves the database.
  pub receive-Meaning :
      (db : Database) (a : Arrival) → Meaning db a (receive cbor db a).0 (receive cbor db a).1
  unfolding receive
  receive-Meaning db a = elim (Bool-cases (is_out a)) [
    | inl out ↦ rw out (out, refl)
    | inr within ↦
        elim (Bool-cases (length (select (is_seen a.sender a.envelope.id) db.seen) == 0)) [
          | inl fresh ↦
              let unseen : was_seen db a ≡ false = unfold contains in ground (arith, fresh) in
              elim (Bool-cases (length a.group_id == 32)) [
                | inl fits ↦ elim (Result-cases (insert_in_tx cbor db.history (to_insert a))) [
                  | inl ((h', id), e) ↦
                      rw (within, fresh, fits, e) (within, unseen, ground (arith, fits), refl, e)
                  | inr (x, e) ↦ rw (within, fresh, fits, e) (within, unseen, e, refl)
                ]
                | inr wrong ↦
                    rw (within, fresh, wrong) (within, unseen, ground (arith, wrong), refl)
              ]
          | inr old ↦
              let seen : was_seen db a ≡ true = unfold contains in ground (arith, old) in
              rw (within, old) (within, seen, refl)
        ]
  ]
