-- ===== src/Contacts/Tests.antt =====
-- The cards of one contact, with a toy encoding.
use skattr.Base.{
  ℕ, ◌≡◌, ◌≢◌, refl, ap, sym, false, List, [], ◌∷◌, Option, none, some, Bytes, same, select, All,
  arith,
}
use skattr.Base.Results.{ok}
use skattr.Base.Int.{ℤ, pos, negsuc}
use skattr.Wire.{Serde}
use skattr.Envelope.{ContactCard}
use skattr.Contacts.{ContactRow, CardRow, Contacts, find}
use skattr.Contacts.Cards.{to_i64, contact_of, max_version, check_newer, put_card, latest_card}
use skattr.Contacts.Versions.{Below, put_card_latest}
use skattr.Contacts.Once.{here, put_card_once}

-- A card of an identity of one byte, without onion and mailboxes.
abbrev encode_parts : Bytes → Bytes → List Bytes → ℕ → ℤ → Bytes → Option Bytes
encode_parts (i ∷ []) [] [] version (pos e) signature = some (i ∷ version ∷ e ∷ signature)
encode_parts _ _ _ _ _ _ = none

abbrev decode_parts : Bytes → Option ContactCard
decode_parts (i ∷ version ∷ e ∷ signature) = some (record {
  body = record {
    identity = i ∷ [];
    onion = [];
    mailboxes = [];
    version = version;
    expires_at = pos e;
  };
  signature = signature;
})
decode_parts _ = none

pub decode-encode_parts :
    (i o : Bytes) (m : List Bytes) (v : ℕ) (e : ℤ) (s b : Bytes)
    → encode_parts i o m v e s ≡ some b
    → decode_parts b
      ≡ some (record {
        body = record { identity = i; onion = o; mailboxes = m; version = v; expires_at = e };
        signature = s;
      })
decode-encode_parts (i ∷ []) [] [] v (pos e) s b eq =
    ap (λ (x : Option Bytes). elim x [ none ↦ none | some y ↦ decode_parts y ]) (sym eq)
decode-encode_parts [] o m v e s b eq = cc
decode-encode_parts (i ∷ j ∷ is) o m v e s b eq = cc
decode-encode_parts (i ∷ []) (x ∷ o) m v e s b eq = cc
decode-encode_parts (i ∷ []) [] (x ∷ m) v e s b eq = cc
decode-encode_parts (i ∷ []) [] [] v (negsuc e) s b eq = cc

abbrev pub toy_card : Serde ContactCard
toy_card = record {
  into_writer = λ c.
      encode_parts c.body.identity c.body.onion c.body.mailboxes c.body.version c.body.expires_at
        c.signature;
  from_reader = decode_parts;
  reads_back = λ c b.
      decode-encode_parts c.body.identity c.body.onion c.body.mailboxes c.body.version
        c.body.expires_at c.signature b;
}

abbrev pub alice : Bytes
alice = 7 ∷ []

abbrev pub card_of_alice : ContactCard
card_of_alice = record {
  body = record { identity = alice; onion = []; mailboxes = []; version = 2; expires_at = pos 900 };
  signature = 1 ∷ [];
}

abbrev pub with_alice : Bytes → Contacts
with_alice g = record {
  rows =
      record {
        id = 1;
        identity = alice;
        display_name = none;
        added_at = 10;
        group_id = g;
        hidden = false;
        muted = false;
      }
      ∷ [];
  last_id = 1;
  onions = [];
  cards = [];
}

abbrev pub updated : Bytes → Contacts
updated g = record (with_alice g) {
  cards = record { contact_id = 1; version = 2; card_blob = 7 ∷ 2 ∷ 900 ∷ 1 ∷ [] } ∷ [];
}

stores_card : put_card toy_card (with_alice []) card_of_alice ≡ ok (updated [])
unfolding put_card to_i64 contact_of find select same max_version check_newer
stores_card = refl

put_card_latest_example :
    (c : ContactRow) × (find (with_alice []) alice ≡ some c)
    × All (Below c.id 2) []
    × (latest_card toy_card (updated []) alice ≡ ok (some card_of_alice))
    × ((k : CardRow) × (updated [] ≡ record (with_alice []) { cards = k ∷ [] })
        × (k.contact_id ≡ c.id))
put_card_latest_example =
    put_card_latest toy_card (with_alice []) card_of_alice (updated []) stores_card

put_card_once_example : put_card toy_card (updated []) card_of_alice ≢ ok (updated [])
put_card_once_example =
    put_card_once toy_card (with_alice []) card_of_alice (updated []) (updated []) card_of_alice
      (updated []) stores_card here refl (omega arith)
