-- ===== src/Contacts/Cards.antt =====
-- The cards of crates/core/src/storage/contacts.rs and the check of crates/core/src/contact/card.rs.
use Prim.Native.Nat.{◌^◌}
use skattr.Base.{
  ℕ, ◌+◌, Bool, false, ◌&&◌, List, [], ◌∷◌, ◌++◌, Option, none, some, Bytes, ltb, leb, ◌==◌,
  if◌then◌else◌, select, order_by,
}
use skattr.Base.Results.{Result, ok, err, ◌>>=◌}
use skattr.Base.Int.{pos_part, neg_part}
use skattr.Wire.{Serde}
use skattr.Envelope.{ContactCardBody, ContactCard}
use skattr.Contacts.{
  ContactRow, CardRow, Contacts, ContactError, not_found, version_overflow, encode_failed,
  decode_failed, stale_version, expired, bad_signature, first_row, find,
}

abbrev pub of_contact : ℕ → CardRow → Bool
of_contact id k = k.contact_id == id

-- No version of the contact is this high or higher: `MAX(version)`, then the comparison.
abbrev pub is_as_new : ℕ → ℕ → CardRow → Bool
is_as_new id version k = of_contact id k && leb version k.version

unfoldable pub to_i64 : ℕ → Result ContactError ℕ
to_i64 version = if ltb version (2 ^ 63) then ok version else err version_overflow

unfoldable pub contact_of : Contacts → Bytes → Result ContactError ContactRow
unfolding find
contact_of t identity = elim (find t identity) [ none ↦ err not_found | some c ↦ ok c ]

unfoldable pub raise : ℕ → Option ℕ → Option ℕ
raise version none = some version
raise version (some v) = if leb version v then some v else some version

unfoldable pub max_version : ℕ → List CardRow → Option ℕ
unfolding raise
max_version id [] = none
max_version id (k ∷ cards) =
    let rest = max_version id cards in if of_contact id k then raise k.version rest else rest

unfoldable pub check_newer : Option ℕ → ℕ → Result ContactError (Unit {0})
check_newer none version = ok tt
check_newer (some max) version = if leb version max then err stale_version else ok tt

-- `ORDER BY version DESC`
abbrev pub newest_first : CardRow → CardRow → Bool
newest_first a b = leb b.version a.version

module _ (cbor : Serde ContactCard) where
  abbrev pub encode_card : ContactCard → Result ContactError Bytes
  encode_card card = elim (cbor.into_writer card) [ none ↦ err encode_failed | some b ↦ ok b ]

  -- `put_card_in_tx_inner`; the transaction has one statement that writes.
  unfoldable pub put_card : Contacts → ContactCard → Result ContactError Contacts
  unfolding to_i64 contact_of max_version check_newer
  put_card t card = do
    version ← to_i64 card.body.version
    blob ← encode_card card
    c ← contact_of t card.body.identity
    checked ← check_newer (max_version c.id t.cards) version
    ok (record t {
      cards = t.cards ++ (record { contact_id = c.id; version = version; card_blob = blob } ∷ []);
    })

  unfoldable pub decode_card : Option CardRow → Result ContactError (Option ContactCard)
  decode_card none = ok none
  decode_card (some k) = elim (cbor.from_reader k.card_blob) [
    | none ↦ err decode_failed
    | some card ↦ ok (some card)
  ]

  unfoldable pub latest_card : Contacts → Bytes → Result ContactError (Option ContactCard)
  unfolding find decode_card
  latest_card t identity = elim (find t identity) [
    | none ↦ ok none
    | some c ↦ decode_card (first_row (order_by newest_first (select (of_contact c.id) t.cards)))
  ]

-- What a card is checked with: the encoding of its body, and Ed25519.
pub record CardLibraries : Type 0 where
  pub body_bytes : ContactCardBody → Option Bytes
  pub verifies : (key message signature : Bytes) → Bool

module _ (libs : CardLibraries) where
  -- `IdentityKey::verify_cbor`
  unfoldable pub verify_cbor : Bytes → ContactCardBody → Bytes → Bool
  verify_cbor key body signature = elim (libs.body_bytes body) [
    | none ↦ false
    | some message ↦ libs.verifies key message signature
  ]

  -- `now` is not negative.
  unfoldable pub verify : ContactCard → ℕ → Result ContactError Bytes
  unfolding verify_cbor
  verify card now =
      if ltb (pos_part card.body.expires_at) (now + neg_part card.body.expires_at)
      then err expired
      else if verify_cbor card.body.identity card.body card.signature
      then ok card.body.identity
      else err bad_signature
