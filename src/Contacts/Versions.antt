-- ===== src/Contacts/Versions.antt =====
-- The versions of the cards of a contact.
use Prim.Native.Nat.{◌^◌}
use skattr.Base.{
  ℕ, ◌<◌, ◌≤◌, ◌≡◌, refl, ap, ◌∙◌, sym, subst, inl, inr, ◌⊎◌, true, false, List, [], ◌∷◌, ◌++◌,
  Option, none, some, Bytes, ltb, leb, if◌then◌else◌, select, select-append, order_by,
  insert_before, All, arith, Bool-cases, Option-cases, All-map,
}
use skattr.Base.Results.{ok, Result-cases}
use skattr.Wire.{Serde}
use skattr.Envelope.{ContactCard}
use skattr.Contacts.{ContactRow, CardRow, Contacts, first_row, find}
use skattr.Contacts.Cards.{
  of_contact, to_i64, contact_of, raise, max_version, check_newer, newest_first, put_card,
  decode_card, latest_card,
}

-- A card of another contact, or of a lower version.
abbrev pub Below : ℕ → ℕ → CardRow → Type 0
Below id n k = (of_contact id k ≡ false) ⊎ (k.version < n)

-- The cards of the contact have no version above that of the query.
abbrev UpTo : ℕ → Option ℕ → CardRow → Type 0
UpTo id none k = of_contact id k ≡ false
UpTo id (some v) k = (of_contact id k ≡ false) ⊎ (k.version ≤ v)

raise-UpTo : (id n : ℕ) (o : Option ℕ) (k : CardRow) → UpTo id o k → UpTo id (raise n o) k
unfolding raise
raise-UpTo id n none k u = inl u
raise-UpTo id n (some v) k u = elim (Bool-cases (leb n v)) [
  | inl e ↦ rw (e, if◌then◌else◌) u
  | inr e ↦ rw (e, if◌then◌else◌) (elim u [ inl f ↦ inl f | inr le ↦ inr (ground (arith, e, le)) ])
]

raise-own : (id : ℕ) (o : Option ℕ) (k : CardRow) → UpTo id (raise k.version o) k
unfolding raise
raise-own id none k = inr (omega arith)
raise-own id (some v) k = elim (Bool-cases (leb k.version v)) [
  | inl e ↦ rw (e, if◌then◌else◌) (inr (ground (arith, e)))
  | inr e ↦ rw (e, if◌then◌else◌) (inr (omega arith))
]

max_version-own :
    (id : ℕ) (k : CardRow) (cards : List CardRow)
    → of_contact id k ≡ true
    → max_version id (k ∷ cards) ≡ raise k.version (max_version id cards)
unfolding max_version
max_version-own id k cards e = rw e refl

max_version-foreign :
    (id : ℕ) (k : CardRow) (cards : List CardRow)
    → of_contact id k ≡ false
    → max_version id (k ∷ cards) ≡ max_version id cards
unfolding max_version
max_version-foreign id k cards e = rw e refl

foreign-UpTo : (id : ℕ) (o : Option ℕ) (k : CardRow) → of_contact id k ≡ false → UpTo id o k
foreign-UpTo id none k e = e
foreign-UpTo id (some v) k e = inl e

max_version-UpTo : (id : ℕ) (cards : List CardRow) → All (UpTo id (max_version id cards)) cards
max_version-UpTo id [] = tt
max_version-UpTo id (k ∷ cards) =
    let rest = max_version-UpTo id cards in
    let max = max_version id cards in
    elim (Bool-cases (of_contact id k)) [
      | inl own ↦
          subst (λ o. All (UpTo id o) (k ∷ cards)) (sym (max_version-own id k cards own))
            (raise-own id max k, All-map _ _ cards (λ x u. raise-UpTo id k.version max x u) rest)
      | inr other ↦
          subst (λ o. All (UpTo id o) (k ∷ cards)) (sym (max_version-foreign id k cards other))
            (foreign-UpTo id max k other, rest)
    ]

check_newer-Below :
    (id n : ℕ) (o : Option ℕ) (k : CardRow) → check_newer o n ≡ ok tt → UpTo id o k → Below id n k
unfolding check_newer
check_newer-Below id n none k e u = inl u
check_newer-Below id n (some v) k e (inl f) = inl f
check_newer-Below id n (some v) k e (inr le) = inr (ground (arith, e, le))

module _ (cbor : Serde ContactCard) where
  -- What storing a card did.
  pub record Put (t : Contacts) (card : ContactCard) (t' : Contacts) : Type 0 where
    pub contact : ContactRow
    pub blob : Bytes
    pub found : find t card.body.identity ≡ some contact
    pub encoded : cbor.into_writer card ≡ some blob
    pub newer : All (Below contact.id card.body.version) t.cards
    pub table : t' ≡ record t {
      cards =
          t.cards
          ++ (record { contact_id = contact.id; version = card.body.version; card_blob = blob }
              ∷ []);
    }

  pub put_card-Put :
      (t : Contacts) (card : ContactCard) (t' : Contacts)
      → put_card cbor t card ≡ ok t'
      → Put t card t'
  unfolding put_card to_i64 contact_of
  put_card-Put t card t' e = elim (Bool-cases (ltb card.body.version (2 ^ 63))) [
    | inl small ↦ elim (Option-cases (cbor.into_writer card)) [
      | inr (blob, w) ↦ elim (Option-cases (find t card.body.identity)) [
        | inr (c, f) ↦
            elim (Result-cases (check_newer (max_version c.id t.cards) card.body.version)) [
              | inl (u, n) ↦ record {
                contact = c;
                blob = blob;
                found = f;
                encoded = w;
                newer =
                    All-map _ _ t.cards
                      (λ k. check_newer-Below c.id card.body.version (max_version c.id t.cards) k n)
                      (max_version-UpTo c.id t.cards);
                table = ground (arith, small, w, f, n, e);
              }
              | inr (x, n) ↦ ground (arith, small, w, f, n, e)
            ]
        | inl f ↦ ground (arith, small, w, f, e)
      ]
      | inl w ↦ ground (arith, small, w, e)
    ]
    | inr large ↦ ground (arith, large, e)
  ]

  -- The row that is higher than all others comes first.
  order_by-newest :
      (k : CardRow) (cards : List CardRow)
      → All (λ x. x.version < k.version) cards
      → order_by newest_first (cards ++ (k ∷ [])) ≡ k ∷ order_by newest_first cards
  unfolding order_by insert_before
  order_by-newest k [] h = refl
  order_by-newest k (x ∷ cards) (lt, h) =
      let last : newest_first x k ≡ false = ground (arith, lt) in
      rw (order_by-newest k cards h, last, if◌then◌else◌) refl

  latest_card-found :
      (t : Contacts) (identity : Bytes) (c : ContactRow)
      → find t identity ≡ some c
      → latest_card cbor t identity
        ≡ decode_card cbor (first_row (order_by newest_first (select (of_contact c.id) t.cards)))
  unfolding latest_card
  latest_card-found t identity c e =
      ap
        (λ (o : Option ContactRow). elim o [
          | none ↦ ok none
          | some x ↦
              decode_card cbor
                (first_row (order_by newest_first (select (of_contact x.id) t.cards)))
        ])
        e

  own_row : (k : CardRow) → select (of_contact k.contact_id) (k ∷ []) ≡ k ∷ []
  unfolding select
  own_row k = ground arith

  own_below :
      (id n : ℕ) (cards : List CardRow)
      → All (Below id n) cards
      → All (λ x. x.version < n) (select (of_contact id) cards)
  unfolding select
  own_below id n [] h = tt
  own_below id n (x ∷ cards) (hx, h) = elim (Bool-cases (of_contact id x)) [
    | inl e ↦ rw (e, if◌then◌else◌) (elim hx [ inl f ↦ cc | inr lt ↦ lt ], own_below id n cards h)
    | inr e ↦ rw (e, if◌then◌else◌) (own_below id n cards h)
  ]

  -- A card is stored only under a contact that exists and only if its version is higher than that
  -- of every card of the contact; it is the latest card of the contact in the table that results,
  -- and no other row of any table changes.
  pub put_card_latest :
      (t : Contacts) (card : ContactCard) (t' : Contacts)
      → put_card cbor t card ≡ ok t'
      → (c : ContactRow) × (find t card.body.identity ≡ some c)
        × All (Below c.id card.body.version) t.cards
        × (latest_card cbor t' card.body.identity ≡ ok (some card))
        × ((k : CardRow) × (t' ≡ record t { cards = t.cards ++ (k ∷ []) }) × (k.contact_id ≡ c.id))
  put_card_latest t card t' e =
      let p = put_card-Put t card t' e in
      let k : CardRow = record {
        contact_id = p.contact.id;
        version = card.body.version;
        card_blob = p.blob;
      } in
      (
        p.contact,
        p.found,
        p.newer,
        latest_card-found t' card.body.identity p.contact (
              subst (λ x. find x card.body.identity ≡ some p.contact) (sym p.table)
                (unfold find in p.found))
            ∙ ap
                (λ (x : Contacts).
                  decode_card cbor
                    (first_row (order_by newest_first (select (of_contact p.contact.id) x.cards))))
                p.table
            ∙ ap (λ cards. decode_card cbor (first_row (order_by newest_first cards)))
                (select-append (of_contact p.contact.id) t.cards (k ∷ [])
                  ∙ ap (λ x. select (of_contact p.contact.id) t.cards ++ x) (own_row k))
            ∙ ap (λ cards. decode_card cbor (first_row cards))
                (order_by-newest k _ (own_below p.contact.id card.body.version t.cards p.newer))
            ∙ (unfold decode_card in rw (cbor.reads_back card p.blob p.encoded) refl),
        (k, p.table, refl),
      )
