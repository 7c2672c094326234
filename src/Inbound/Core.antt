-- ===== src/Inbound/Core.antt =====
-- The part of a node that an attachment has nothing to do with.
use skattr.Base.{
  ℕ, ◌≡◌, refl, inl, inr, ◌&&◌, not, List, Bytes, length, leb, ◌==◌, if◌then◌else◌, select,
  Bool-cases,
}
use skattr.Wire.{Serde}
use skattr.Envelope.{Kind}
use skattr.Attachment.{AttachmentManifest, from_cbor, max_attachment_bytes}
use skattr.Attachment
use skattr.Receiver.{Database}
use skattr.Contacts.{Contacts}
use skattr.Transfers.{has_attachment}
use skattr.Inbound.{GroupRow, Event, Node, on_manifest, stage_kind}

-- All of a node but for the attachments.
pub record Core : Type 0 where
  pub groups : List GroupRow
  pub contacts : Contacts
  pub database : Database
  pub events : List Event

abbrev pub core : Node → Core
core n = record {
  groups = n.groups;
  contacts = n.contacts;
  database = n.database;
  events = n.events;
}

on_manifest-core :
    (node : Node) (from manifest : Bytes) (now : ℕ) (r : Attachment.Result AttachmentManifest)
    → core (on_manifest node from manifest now r) ≡ core node
unfolding on_manifest
on_manifest-core node from manifest now (Attachment.err e) = refl
on_manifest-core node from manifest now (Attachment.ok m) =
    elim (Bool-cases (
      leb m.total_size max_attachment_bytes
      && not (length m.chunks == 0)
      && (length (select (has_attachment m.attachment_id) node.attachments) == 0))) [
        | inl t ↦ rw (t, if◌then◌else◌) refl
        | inr g ↦ rw (g, if◌then◌else◌) refl
      ]

pub stage_kind-core :
    (cbor : Serde AttachmentManifest) (node : Node) (from : Bytes) (kind : Kind) (now : ℕ)
    → core (stage_kind cbor node from kind now) ≡ core node
unfolding stage_kind
stage_kind-core cbor node from (Kind.file manifest) now =
    on_manifest-core node from manifest now (from_cbor cbor manifest)
stage_kind-core cbor node from (Kind.text body) now = refl
stage_kind-core cbor node from (Kind.reaction x y) now = refl
stage_kind-core cbor node from (Kind.edit x y) now = refl
stage_kind-core cbor node from (Kind.delete x) now = refl
stage_kind-core cbor node from Kind.typing now = refl
stage_kind-core cbor node from (Kind.contact_card_update c) now = refl
