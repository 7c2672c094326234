-- ===== src/Envelope.antt =====
-- crates/core/src/envelope/message.rs, crates/core/src/envelope/kinds.rs and the structs of
-- crates/core/src/contact/card.rs: what a message carries. Texts are their bytes.
use skattr.Base.{ℕ, List, Option, Bytes}
use skattr.Base.Int.{ℤ}

pub record ContactCardBody : Type 0 where
  pub identity : Bytes
  pub onion : Bytes
  pub mailboxes : List Bytes
  pub version : ℕ
  pub expires_at : ℤ

pub record ContactCard : Type 0 where
  pub body : ContactCardBody
  pub signature : Bytes

pub data Kind : Type 0 where
  text : (body : Bytes) → Kind
  file : (manifest : Bytes) → Kind
  reaction : (target emoji : Bytes) → Kind
  edit : (target body : Bytes) → Kind
  delete : (target : Bytes) → Kind
  typing : Kind
  contact_card_update : ContactCard → Kind

pub record Envelope : Type 0 where
  pub v : ℕ
  pub id : Bytes
  pub ts : ℤ
  pub reply_to : Option Bytes
  pub kind : Kind
