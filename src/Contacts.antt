-- ===== src/Contacts.antt =====
-- crates/core/src/storage/contacts.rs and crates/core/src/contact/card.rs: the contacts, their onion
-- addresses and their cards. The unique indices are on the identity of a contact and on (contact_id,
-- version) of a card; a contact that is deleted takes its addresses and cards with it. CBOR and the
-- signature are parameters. The lists for the interfaces, which sort by name, are not modelled.
pub mod Cards
pub mod Versions
pub mod Once
pub mod Tests
use Prim.Native.Nat.{◌^◌}
use skattr.Base.{
  ℕ, suc, ◌+◌, Bool, true, false, not, ◌&&◌, List, [], ◌∷◌, ◌++◌, Option, none, some, Bytes, length,
  ltb, leb, ◌==◌, if◌then◌else◌, same, select, order_by,
}
use skattr.Base.Results.{Result, ok, err, ◌>>=◌}
use skattr.Base.Int.{ℤ, pos, pos_part, neg_part}
use skattr.Wire.{Serde}
use skattr.Envelope.{ContactCardBody, ContactCard}

pub record ContactRow : Type 0 where
  pub id : ℕ
  pub identity : Bytes
  pub display_name : Option Bytes
  pub added_at : ℕ
  pub group_id : Bytes
  pub hidden : Bool
  pub muted : Bool

pub record OnionRow : Type 0 where
  pub contact_id : ℕ
  pub address : Bytes
  pub seen_at : ℕ
  pub is_current : Bool

-- `verified_at` is not read.
pub record CardRow : Type 0 where
  pub contact_id : ℕ
  pub version : ℕ
  pub card_blob : Bytes

pub record Contacts : Type 0 where
  pub rows : List ContactRow
  pub last_id : ℕ
  pub onions : List OnionRow
  pub cards : List CardRow

pub data ContactError : Type 0 where
  not_found version_overflow encode_failed decode_failed stale_version : ContactError
  expired bad_signature no_such_contact : ContactError

-- `WHERE identity_pubkey = ?`
abbrev pub is_identity : Bytes → ContactRow → Bool
is_identity identity r = same r.identity identity

abbrev pub first_row {ℓ} : {A : Type ℓ} → List A → Option A
first_row [] = none
first_row (r ∷ _) = some r

unfoldable pub find : Contacts → Bytes → Option ContactRow
find t identity = first_row (select (is_identity identity) t.rows)

-- `UPDATE contacts … WHERE p`
unfoldable pub update_where :
    (ContactRow → Bool) → (ContactRow → ContactRow) → List ContactRow → List ContactRow
update_where p f [] = []
update_where p f (r ∷ rows) = (if p r then f r else r) ∷ update_where p f rows

abbrev pub update : Bytes → (ContactRow → ContactRow) → Contacts → Contacts
update identity f t = record t { rows = update_where (is_identity identity) f t.rows }

-- The same, where no row is an error.
abbrev pub update_found :
    Bytes → (ContactRow → ContactRow) → Contacts → Result ContactError Contacts
update_found identity f t =
    if length (select (is_identity identity) t.rows) == 0
    then err not_found
    else ok (update identity f t)

abbrev pub rename : Option Bytes → ContactRow → ContactRow
rename name r = record r { display_name = name; hidden = false }

-- A contact that exists gets the name, and is shown again.
unfoldable pub upsert : Contacts → (identity : Bytes) → Option Bytes → ℕ → Contacts
upsert t identity name added_at =
    if length (select (is_identity identity) t.rows) == 0
    then record t {
      rows =
          t.rows
          ++ (record {
            id = suc t.last_id;
            identity = identity;
            display_name = name;
            added_at = added_at;
            group_id = [];
            hidden = false;
            muted = false;
          }
              ∷ []);
      last_id = suc t.last_id;
    }
    else update identity (rename name) t

unfoldable pub remove : Contacts → Bytes → Contacts
unfolding find
remove t identity = elim (find t identity) [
  | none ↦ t
  | some c ↦ record t {
    rows = select (λ r. not (is_identity identity r)) t.rows;
    onions = select (λ o. not (o.contact_id == c.id)) t.onions;
    cards = select (λ k. not (k.contact_id == c.id)) t.cards;
  }
]

-- Without the contact, the insertion fails: `contact_id` is not null.
unfoldable pub add_onion : Contacts → Bytes → Bytes → ℕ → Result ContactError Contacts
unfolding find
add_onion t identity address seen_at = elim (find t identity) [
  | none ↦ err no_such_contact
  | some c ↦ ok (record t {
    onions =
        t.onions
        ++ (record { contact_id = c.id; address = address; seen_at = seen_at; is_current = true }
            ∷ []);
  })
]

abbrev pub is_of : ℕ → OnionRow → Bool
is_of id o = o.contact_id == id

-- The two UPDATEs: of the contact's addresses, this one is current.
unfoldable pub mark_onions : ℕ → Bytes → List OnionRow → List OnionRow
mark_onions id address [] = []
mark_onions id address (o ∷ onions) =
    (if is_of id o then record o { is_current = same o.address address } else o)
    ∷ mark_onions id address onions

unfoldable pub mark_current : Contacts → Bytes → Bytes → Contacts
unfolding find mark_onions
mark_current t identity address = elim (find t identity) [
  | none ↦ t
  | some c ↦ record t { onions = mark_onions c.id address t.onions }
]

-- `ORDER BY seen_at DESC`
abbrev pub seen_later : OnionRow → OnionRow → Bool
seen_later a b = leb b.seen_at a.seen_at

unfoldable pub current_onion : Contacts → Bytes → Option Bytes
unfolding find
current_onion t identity = elim (find t identity) [
  | none ↦ none
  | some c ↦
      elim (first_row (order_by seen_later (select (λ o. is_of c.id o && o.is_current) t.onions))) [
        | none ↦ none
        | some o ↦ some o.address
      ]
]

unfoldable pub set_group_id : Contacts → Bytes → Bytes → Result ContactError Contacts
set_group_id t identity group_id = update_found identity (λ r. record r { group_id = group_id }) t

unfoldable pub set_display_name : Contacts → Bytes → Option Bytes → Result ContactError Contacts
set_display_name t identity name = update_found identity (λ r. record r { display_name = name }) t

unfoldable pub set_hidden : Contacts → Bytes → Bool → Result ContactError Contacts
set_hidden t identity hidden = update_found identity (λ r. record r { hidden = hidden }) t

unfoldable pub set_muted : Contacts → Bytes → Bool → Contacts
set_muted t identity muted = update identity (λ r. record r { muted = muted }) t

unfoldable pub is_muted : Contacts → Bytes → Bool
unfolding find
is_muted t identity = elim (find t identity) [ none ↦ false | some c ↦ c.muted ]

unfoldable pub get_group_id : Contacts → Bytes → Option Bytes
unfolding find
get_group_id t identity = elim (find t identity) [ none ↦ none | some c ↦ some c.group_id ]

-- Identities have 32 bytes.
unfoldable pub contact_for_group : Contacts → Bytes → Option Bytes
contact_for_group t group_id = elim (first_row (select (λ r. same r.group_id group_id) t.rows)) [
  | none ↦ none
  | some c ↦ some c.identity
]
