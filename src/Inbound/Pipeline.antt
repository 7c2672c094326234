-- ===== src/Inbound/Pipeline.antt =====
-- `dispatch_for_group` of crates/core/src/daemon/inbound.rs.
use skattr.Base.{
  ℕ, ◌*◌, Bool, List, [], ◌∷◌, ◌++◌, Option, none, some, Bytes, length, ◌==◌, if◌then◌else◌, same,
}
use skattr.Base.Results.{Result, ok, err, ◌>>=◌}
use skattr.Envelope.{ContactCard, Envelope, Kind}
use skattr.History.Export.{MessageRecord, incoming}
use skattr.Receiver.{
  Database, New, ReceiveOutcome, new, rejected, ReceiveError, Arrival, receive_in_tx,
}
use skattr.Contacts.{Contacts, ContactError}
use skattr.Contacts.Cards.{verify, put_card}
use skattr.Inbound.{
  GroupRow, Event, message_received, contact_card_received, Node, InboundError, bad_group_length,
  sender_mismatch, out_of_window, contact, receive_failed, Mls, Codecs, stage_kind, Answer,
}
use skattr.Inbound.Sessions.{load, decrypt, save, opened}

abbrev pub lift_contact : {A : Type 0} → Result ContactError A → Result InboundError A
lift_contact (ok a) = ok a
lift_contact (err e) = err (contact e)

abbrev pub lift_receive : {A : Type 0} → Result ReceiveError A → Result InboundError A
lift_receive (ok a) = ok a
lift_receive (err e) = err (receive_failed e)

module _ {G : Type 0} (mls : Mls G) (codecs : Codecs) where
  -- A commit.
  abbrev pub on_commit : Node → Bytes → Result InboundError (List GroupRow) → Answer
  on_commit node fresh (ok groups) = (record node { groups = groups }, ok fresh)
  on_commit node fresh (err e) = (node, err e)

  -- The update of a card.
  unfoldable pub accept_card : Contacts → Bytes → ContactCard → ℕ → Result InboundError Contacts
  accept_card contacts from card now = do
    claimed ← lift_contact (verify codecs.cards card now)
    if same claimed from
        then lift_contact (put_card codecs.card contacts card)
        else err sender_mismatch

  abbrev pub on_card : Node → Bytes → ContactCard → Bytes → Result InboundError Contacts → Answer
  on_card node from card id (ok contacts) = (
    record node {
      contacts = contacts;
      events = node.events ++ (contact_card_received from card.body.version ∷ []);
    },
    ok id,
  )
  on_card node from card id (err e) = (node, err e)

  -- The transaction: the group and the message, or neither; what is rejected is rolled back.
  abbrev pub not_rejected :
      Database × ReceiveOutcome → Result InboundError (Database × ReceiveOutcome)
  not_rejected (db, rejected) = err out_of_window
  not_rejected (db, o) = ok (db, o)

  unfoldable pub persist :
      Node → G → Arrival → Result InboundError (List GroupRow × (Database × ReceiveOutcome))
  unfolding save
  persist node g a = do
    groups ← save mls codecs node.groups a.group_id g
    out ← lift_receive (receive_in_tx codecs.envelope node.database a)
    kept ← not_rejected out
    ok (groups, kept)

  abbrev pub live_record : New → MessageRecord
  live_record n = record {
    row_id = n.row_id;
    message_id = n.envelope.id;
    contact = n.sender;
    direction = incoming;
    kind = n.envelope.kind;
    mls_generation = n.mls_generation;
    ts_daemon_recv = n.ts_daemon_recv;
    ts_envelope = n.envelope.ts;
    delivered_at = none;
    dismissed_at = none;
    failed_reason = none;
  }

  -- A new message is announced.
  abbrev pub announce : ReceiveOutcome → List Event
  announce (new n) = message_received n.sender (live_record n) ∷ []
  announce _ = []

  unfoldable pub on_persisted :
      Node → Bytes → Result InboundError (List GroupRow × (Database × ReceiveOutcome)) → Answer
  on_persisted node id (ok (groups, (db, o))) =
      (record node { groups = groups; database = db; events = node.events ++ announce o }, ok id)
  on_persisted node id (err e) = (node, err e)

  abbrev pub to_arrival : Bytes → Bytes → G → Envelope → Bool → ℕ → Arrival
  to_arrival from gid g env enforce now = record {
    sender = from;
    group_id = gid;
    envelope = env;
    now_ms = now * 1000;
    mls_generation = mls.epoch g;
    ts_daemon_recv = now;
    enforce_ts_window = enforce;
  }

  unfoldable pub on_envelope : Node → Bytes → Bytes → G → Envelope → Bool → ℕ → Kind → Answer
  unfolding accept_card persist on_persisted stage_kind
  on_envelope node from gid g env enforce now (Kind.contact_card_update card) =
      on_card node from card env.id (accept_card node.contacts from card now)
  on_envelope node from gid g env enforce now kind =
      let staged = stage_kind codecs.manifest node from kind now in
      on_persisted staged env.id (persist staged g (to_arrival from gid g env enforce now))

  unfoldable pub on_decrypted :
      Node → Bytes → Bytes → Bool → ℕ → Bytes → Result InboundError (G × Option Envelope) → Answer
  unfolding on_envelope save
  on_decrypted node from gid enforce now fresh (err e) = (node, err e)
  on_decrypted node from gid enforce now fresh (ok (g, none)) =
      on_commit node fresh (save mls codecs node.groups gid g)
  on_decrypted node from gid enforce now fresh (ok (g, some env)) =
      on_envelope node from gid g env enforce now env.kind

  -- `fresh` is the id that is drawn for a commit.
  unfoldable pub dispatch_for_group :
      Node → (from gid ciphertext : Bytes) → Bool → ℕ → (fresh : Bytes) → Answer
  unfolding on_decrypted load decrypt
  dispatch_for_group node from gid ciphertext enforce now fresh =
      if length gid == 32
      then on_decrypted node from gid enforce now fresh
          (opened mls codecs node.groups gid ciphertext)
      else (node, err bad_group_length)
