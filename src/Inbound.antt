-- ===== src/Inbound.antt =====
-- crates/core/src/daemon/inbound.rs, with `load`, `decrypt` and `save_in_tx` of
-- crates/core/src/mls/group.rs, crates/core/src/storage/groups.rs, and `insert` and `set_peer` of
-- crates/core/src/storage/attachments.rs: what the daemon makes of an MLS ciphertext. OpenMLS and the
-- encodings are parameters. The lock of a group is held throughout, so that this is one step; the
-- clock is in seconds and not negative. Joining by a Welcome and the chunks of an attachment are not
-- modelled.
pub mod Sessions
pub mod Pipeline
pub mod Entry
pub mod Core
pub mod Meaning
pub mod Outcomes
pub mod Redelivered
pub mod Fetched
pub mod Polled
mod Tests
use Prim.Native.Nat.{◌^◌}
use skattr.Base.{
  ℕ, suc, ◌+◌, ◌*◌, ◌≡◌, Bool, true, false, not, ◌&&◌, List, [], ◌∷◌, ◌++◌, Option, none, some,
  Bytes, length, ltb, leb, ◌==◌, if◌then◌else◌, same, select,
}
use skattr.Base.Results.{Result, ok, err, ◌>>=◌}
use skattr.Wire.{Serde}
use skattr.Envelope.{ContactCard, Envelope, Kind}
use skattr.Envelope
use skattr.Attachment.{AttachmentManifest, from_cbor, max_attachment_bytes}
use skattr.Attachment
use skattr.Transfers.{AttachmentRow, pending, has_attachment}
use skattr.History.Export.{MessageRecord, incoming}
use skattr.Receiver.{
  Database, New, ReceiveOutcome, new, duplicate, rejected, ReceiveError, Arrival, receive_in_tx,
}
use skattr.Contacts.{Contacts, ContactError, get_group_id, contact_for_group}
use skattr.Contacts.Cards.{CardLibraries, verify, put_card}

-- A row of `mls_groups`; `group_id` is unique.
pub record GroupRow : Type 0 where
  pub group_id : Bytes
  pub state_blob : Bytes
  pub epoch : ℕ

pub data Event : Type 0 where
  message_received : (contact : Bytes) → MessageRecord → Event
  contact_card_received : (contact : Bytes) (version : ℕ) → Event

-- The database, the transfers that wait to begin, with their peers, and the events sent.
pub record Node : Type 0 where
  pub groups : List GroupRow
  pub contacts : Contacts
  pub database : Database
  pub attachments : List AttachmentRow
  pub begins : List (Bytes × AttachmentManifest)
  pub events : List Event

pub data InboundError : Type 0 where
  no_group bad_group_length unknown_group load_failed decrypt_failed : InboundError
  save_failed sender_mismatch out_of_window : InboundError
  contact : ContactError → InboundError
  receive_failed : ReceiveError → InboundError

-- OpenMLS with its provider: a group from a snapshot, the processing of a message, which gives the
-- group after it with the payload of an application message or none for a commit, and a snapshot.
pub record Mls (G : Type 0) : Type 0 where
  pub restore : (state_blob group_id : Bytes) → Option G
  pub process : G → Bytes → Option (G × Option Bytes)
  pub snapshot : G → Option Bytes
  pub epoch : G → ℕ

pub record Codecs : Type 0 where
  pub envelope : Serde Envelope
  pub card : Serde ContactCard
  pub manifest : Serde AttachmentManifest
  pub cards : CardLibraries

abbrev pub is_group : Bytes → GroupRow → Bool
is_group g r = same r.group_id g

abbrev pub first_group : List GroupRow → Option GroupRow
first_group [] = none
first_group (r ∷ _) = some r

-- `MlsGroupRepo::put_in_tx`: the row of the group gets the state, or there is a new row.
unfoldable pub set_group : GroupRow → List GroupRow → List GroupRow
set_group row [] = []
set_group row (r ∷ groups) = (if is_group row.group_id r then row else r) ∷ set_group row groups

unfoldable pub put_group : GroupRow → List GroupRow → List GroupRow
unfolding set_group
put_group row groups =
    if length (select (is_group row.group_id) groups) == 0
    then groups ++ (row ∷ [])
    else set_group row groups

-- The branch of a file: the manifest is stored and queued for its peer, unless it is no manifest, too
-- large or empty, or its id is taken.
unfoldable pub on_manifest :
    Node → (from manifest : Bytes) → ℕ → Attachment.Result AttachmentManifest → Node
on_manifest node from manifest now (Attachment.err e) = node
on_manifest node from manifest now (Attachment.ok m) =
    if leb m.total_size max_attachment_bytes
      && not (length m.chunks == 0)
      && (length (select (has_attachment m.attachment_id) node.attachments) == 0)
    then record node {
      attachments =
          node.attachments
          ++ (record {
            attachment_id = m.attachment_id;
            inbound = true;
            manifest = manifest;
            total_chunks = length m.chunks;
            status = pending;
            created_at = now;
            peer = some from;
          }
              ∷ []);
      begins = node.begins ++ ((from, m) ∷ []);
    }
    else node

-- Only a file stages anything.
unfoldable pub stage_kind : Serde AttachmentManifest → Node → Bytes → Kind → ℕ → Node
unfolding on_manifest
stage_kind cbor node from (Kind.file manifest) now =
    on_manifest node from manifest now (from_cbor cbor manifest)
stage_kind cbor node from _ now = node

abbrev pub Answer : Type 0
Answer = Node × Result InboundError Bytes
