-- ===== src/Contacts/Once.antt =====
-- No card is stored twice.
use skattr.Base.{
  ℕ, ◌≤◌, ◌≡◌, ◌≢◌, refl, ap, ◌∙◌, sym, subst, inl, inr, Bool, true, false, List, [], ◌∷◌, ◌++◌,
  Option, none, some, Bytes, length, ◌==◌, if◌then◌else◌, select, select-append, Has, All-Has,
  Has-append_left, Has-append_right, arith, Bool-cases, Option-cases,
}
use skattr.Base.Results.{ok}
use skattr.Wire.{Serde}
use skattr.Envelope.{ContactCard}
use skattr.Contacts.{
  ContactRow, CardRow, Contacts, is_identity, first_row, find, update_where, update, update_found,
  upsert, add_onion, mark_current, set_group_id, set_display_name, set_hidden, set_muted,
}
use skattr.Contacts.Versions.{put_card-Put}
use skattr.Contacts.Cards.{put_card}

-- An update of the contacts keeps the row id of each.
abbrev Keeps : (ContactRow → ContactRow) → Type 0
Keeps f = (r : ContactRow) → ((f r).identity ≡ r.identity) × ((f r).id ≡ r.id)

find-update_where :
    (q : ContactRow → Bool) (f : ContactRow → ContactRow) (identity : Bytes)
    (rows : List ContactRow) (id : ℕ)
    → Keeps f
    → ((c : ContactRow) × (first_row (select (is_identity identity) rows) ≡ some c) × (c.id ≡ id))
    → (d : ContactRow) × (first_row (select (is_identity identity) (update_where q f rows))
        ≡ some d)
      × (d.id ≡ id)
unfolding update_where select
find-update_where q f identity [] id keeps (c, e, i) = absurd (let k : none ≡ some c = e in cc)
find-update_where q f identity (r ∷ rows) id keeps (c, e, i) =
    elim (Bool-cases (is_identity identity r)) [
      | inl own ↦
          let moved : is_identity identity (f r) ≡ true = rw ((keeps r).0) own in
          let first : r.id ≡ id = ground (arith, own, e, i) in
          elim (Bool-cases (q r)) [
            | inl k ↦ rw (k, if◌then◌else◌, moved) (f r, refl, (keeps r).1 ∙ first)
            | inr k ↦ rw (k, if◌then◌else◌, own) (r, refl, first)
          ]
      | inr other ↦
          let moved : is_identity identity (f r) ≡ false = rw ((keeps r).0) other in
          let later =
            find-update_where q f identity rows id keeps (c, (rw (other, if◌then◌else◌) at e), i) in
          elim (Bool-cases (q r)) [
            | inl k ↦ rw (k, if◌then◌else◌, moved) later
            | inr k ↦ rw (k, if◌then◌else◌, other) later
          ]
    ]

first_row-append :
    (xs ys : List ContactRow) (c : ContactRow)
    → first_row xs ≡ some c
    → first_row (xs ++ ys) ≡ some c
first_row-append [] ys c e = absurd (let k : none ≡ some c = e in cc)
first_row-append (x ∷ xs) ys c e = e

find-append :
    (identity : Bytes) (rows more : List ContactRow) (c : ContactRow)
    → first_row (select (is_identity identity) rows) ≡ some c
    → first_row (select (is_identity identity) (rows ++ more)) ≡ some c
find-append identity rows more c e =
    ap first_row (select-append (is_identity identity) rows more)
    ∙ first_row-append (select (is_identity identity) rows) _ c e

module _ (cbor : Serde ContactCard) where
  -- What may happen to the contacts, but for the removal of one.
  pub data Step : Contacts → Contacts → Type 0 where
    upserts :
        {t : Contacts} (identity : Bytes) (name : Option Bytes) (at : ℕ)
        → Step t (upsert t identity name at)
    adds_onion :
        {t t' : Contacts} (identity address : Bytes) (at : ℕ)
        → add_onion t identity address at ≡ ok t'
        → Step t t'
    marks_current :
        {t : Contacts} (identity address : Bytes) → Step t (mark_current t identity address)
    links :
        {t t' : Contacts} (identity group_id : Bytes)
        → set_group_id t identity group_id ≡ ok t'
        → Step t t'
    names :
        {t t' : Contacts} (identity : Bytes) (name : Option Bytes)
        → set_display_name t identity name ≡ ok t'
        → Step t t'
    hides :
        {t t' : Contacts} (identity : Bytes) (hidden : Bool)
        → set_hidden t identity hidden ≡ ok t'
        → Step t t'
    mutes : {t : Contacts} (identity : Bytes) (muted : Bool) → Step t (set_muted t identity muted)
    puts : {t t' : Contacts} (card : ContactCard) → put_card cbor t card ≡ ok t' → Step t t'

  pub data Reach (t : Contacts) : Contacts → Type 0 where
    here : Reach t t
    next : {x y : Contacts} → Reach t x → Step x y → Reach t y

  -- The contact keeps its row id, and the card stays.
  abbrev Holds : Bytes → ℕ → CardRow → Contacts → Type 0
  Holds identity id k t =
      ((c : ContactRow) × (find t identity ≡ some c) × (c.id ≡ id)) × Has k t.cards

  -- It is a matter of the contacts and the cards.
  Holds-rows :
      (identity : Bytes) (id : ℕ) (k : CardRow) (t t' : Contacts)
      → t'.rows ≡ t.rows
      → t'.cards ≡ t.cards
      → Holds identity id k t
      → Holds identity id k t'
  unfolding find
  Holds-rows identity id k t t' er ec (c, h) = (
    (c.0, ap (λ rows. first_row (select (is_identity identity) rows)) er ∙ c.1, c.2),
    subst (Has k) (sym ec) h,
  )

  Holds-update :
      (identity who : Bytes) (id : ℕ) (k : CardRow) (t : Contacts) (f : ContactRow → ContactRow)
      → Keeps f
      → Holds identity id k t
      → Holds identity id k (update who f t)
  unfolding find
  Holds-update identity who id k t f keeps (c, h) =
      (find-update_where (is_identity who) f identity t.rows id keeps c, h)

  Holds-found :
      (identity who : Bytes) (id : ℕ) (k : CardRow) (t t' : Contacts) (f : ContactRow → ContactRow)
      → Keeps f
      → update_found who f t ≡ ok t'
      → Holds identity id k t
      → Holds identity id k t'
  Holds-found identity who id k t t' f keeps e h =
      elim (Bool-cases (length (select (is_identity who) t.rows) == 0)) [
        | inl none_there ↦ ground (arith, none_there, e)
        | inr there ↦
            subst (Holds identity id k) (ground (arith, there, e))
              (Holds-update identity who id k t f keeps h)
      ]

  marks_rows :
      (t : Contacts) (who address : Bytes)
      → ((mark_current t who address).rows ≡ t.rows)
        × ((mark_current t who address).cards ≡ t.cards)
  unfolding mark_current
  marks_rows t who address = elim (Option-cases (find t who)) [
    | inl e ↦ (ground (arith, e), ground (arith, e))
    | inr (d, e) ↦ (ground (arith, e), ground (arith, e))
  ]

  Step-Holds :
      (identity : Bytes) (id : ℕ) (k : CardRow) {t t' : Contacts}
      → Step t t'
      → Holds identity id k t
      → Holds identity id k t'
  unfolding set_group_id set_display_name set_hidden set_muted upsert add_onion mark_current find
  Step-Holds identity id k {t} (upserts who name at) (c, h) =
      elim (Bool-cases (length (select (is_identity who) t.rows) == 0)) [
        | inl new ↦ rw (new, if◌then◌else◌) ((c.0, find-append identity t.rows _ c.0 c.1, c.2), h)
        | inr known ↦
            rw (known, if◌then◌else◌)
              (Holds-update identity who id k t _ (λ r. (refl, refl)) (c, h))
      ]
  Step-Holds identity id k {t} {t'} (adds_onion who address at e) (c, h) =
      elim (Option-cases (find t who)) [
        | inl none_there ↦ ground (arith, none_there, e)
        | inr (d, f) ↦
            Holds-rows identity id k t t' (ground (arith, f, e)) (ground (arith, f, e)) (c, h)
      ]
  Step-Holds identity id k {t} (marks_current who address) h =
      Holds-rows identity id k t (mark_current t who address) (marks_rows t who address).0
        (marks_rows t who address).1 h
  Step-Holds identity id k {t} {t'} (links who g e) h =
      Holds-found identity who id k t t' _ (λ r. (refl, refl)) e h
  Step-Holds identity id k {t} {t'} (names who name e) h =
      Holds-found identity who id k t t' _ (λ r. (refl, refl)) e h
  Step-Holds identity id k {t} {t'} (hides who b e) h =
      Holds-found identity who id k t t' _ (λ r. (refl, refl)) e h
  Step-Holds identity id k {t} (mutes who b) h =
      Holds-update identity who id k t _ (λ r. (refl, refl)) h
  Step-Holds identity id k {t} {t'} (puts card e) (c, h) =
      let p = put_card-Put cbor t card t' e in
      subst (Holds identity id k) (sym p.table) (unfold find in c, Has-append_left k t.cards _ h)

  Reach-Holds :
      (identity : Bytes) (id : ℕ) (k : CardRow) (t : Contacts) {t' : Contacts}
      → Reach t t'
      → Holds identity id k t
      → Holds identity id k t'
  Reach-Holds identity id k t here h = h
  Reach-Holds identity id k t (next r s) h =
      Step-Holds identity id k s (Reach-Holds identity id k t r h)

  -- As long as the contact is not removed, and whatever else becomes of the contacts, a card that was
  -- stored is not stored again, nor is any card of its identity with a version that is no higher.
  pub put_card_once :
      (t : Contacts) (card : ContactCard) (t' later : Contacts) (old : ContactCard) (x : Contacts)
      → put_card cbor t card ≡ ok t'
      → Reach t' later
      → old.body.identity ≡ card.body.identity
      → old.body.version ≤ card.body.version
      → put_card cbor later old ≢ ok x
  put_card_once t card t' later old x e r ei le again =
      let p = put_card-Put cbor t card t' e in
      let q = put_card-Put cbor later old x again in
      let k : CardRow = record {
        contact_id = p.contact.id;
        version = card.body.version;
        card_blob = p.blob;
      } in
      let first : Holds card.body.identity p.contact.id k t' =
        subst (Holds card.body.identity p.contact.id k) (sym p.table)
          ((p.contact, (unfold find in p.found), refl), Has-append_right k t.cards _ (inl refl)) in
      let ((d, found, same_id), kept) = Reach-Holds card.body.identity p.contact.id k t' r first in
      let one : q.contact.id ≡ p.contact.id =
        same_contact later q.contact d (ap (find later) (sym ei) ∙ q.found) found ∙ same_id in
      elim (All-Has _ k later.cards q.newer kept) [
        | inl other ↦ absurd (ground (arith, other, one))
        | inr higher ↦ absurd (omega (arith, higher, le))
      ]
    where
      same_contact :
          (later : Contacts) (c d : ContactRow)
          → find later card.body.identity ≡ some c
          → find later card.body.identity ≡ some d
          → c.id ≡ d.id
      same_contact later c d e f = ground (arith, e, f)
