-- ===== src/History/Insert.antt =====
-- Storing a message.
use skattr.Base.{
  ℕ, suc, ◌<◌, ◌≡◌, ◌≢◌, refl, ap, sym, subst, inl, inr, List, [], ◌∷◌, ◌++◌, some, Bytes, length,
  length-append, ◌==◌, same_refl, select, select-append, All-append, arith, Bool-cases,
  Option-cases, none_selected, All-map,
}
use skattr.Base.Results.{ok, Result-cases}
use skattr.Wire.{Serde}
use skattr.Envelope.{Envelope}
use skattr.History.{
  Message, History, KindName, InsertParams, has_key, new_row, kind_name, insert_in_tx,
}
use skattr.History.Rows.{Ascending-append}
use skattr.History.Validity.{IsValid, KeysApart-append, clash-of_key}

module _ (cbor : Serde Envelope) where
  -- The rows that hold the key of the message.
  abbrev pub holders : History → InsertParams → List Message
  holders h p = select (has_key p.group_id p.envelope.id) h.rows

  -- What a successful insertion did.
  pub record Inserted (h : History) (p : InsertParams) (h' : History) (id : ℕ) : Type 0 where
    pub body : Bytes
    pub kind : KindName
    pub encoded : cbor.into_writer p.envelope ≡ some body
    pub named : kind_name p.envelope.kind ≡ ok kind
    pub was_free : length (holders h p) ≡ 0
    pub is_new : id ≡ suc h.last_id
    pub table : h' ≡ record h { rows = h.rows ++ (new_row cbor id p kind body ∷ []); last_id = id }

  pub insert_in_tx-Inserted :
      (h : History) (p : InsertParams) (h' : History) (id : ℕ)
      → insert_in_tx cbor h p ≡ ok (h', id)
      → Inserted h p h' id
  unfolding insert_in_tx
  insert_in_tx-Inserted h p h' id e = elim (Option-cases (cbor.into_writer p.envelope)) [
    | inl f ↦ ground (arith, f, e)
    | inr (body, f) ↦ elim (Result-cases (kind_name p.envelope.kind)) [
      | inl (kind, g) ↦ elim (Bool-cases (length (holders h p) == 0)) [
        | inl free ↦ record {
          body = body;
          kind = kind;
          encoded = f;
          named = g;
          was_free = ground (arith, free);
          is_new = ground (arith, f, g, free, e);
          table = ground (arith, f, g, free, e);
        }
        | inr taken ↦ ground (arith, f, g, taken, e)
      ]
      | inr (x, g) ↦ ground (arith, f, g, e)
    ]
  ]

  Inserted-IsValid :
      {h h' : History} {p : InsertParams} {id : ℕ} → Inserted h p h' id → IsValid h → IsValid h'
  Inserted-IsValid {h} {h'} {p} {id} i v =
      let r = new_row cbor id p i.kind i.body in
      subst IsValid (sym i.table) (record {
        ascending =
            Ascending-append 0 h.rows r v.ascending
              (All-map _ _ h.rows (λ x le. omega (arith, le, i.is_new)) v.old)
              (omega (arith, i.is_new));
        old =
            All-append _ h.rows (r ∷ [])
              (All-map _ _ h.rows (λ x le. omega (arith, le, i.is_new)) v.old) (omega arith, tt);
        apart =
            KeysApart-append r h.rows
              (All-map _ _ h.rows (λ x f. clash-of_key p.group_id p.envelope.id x r refl refl f)
                (none_selected _ h.rows i.was_free))
              v.apart;
      })

  pub insert_in_tx-IsValid :
      (h : History) (p : InsertParams) {h' : History} {id : ℕ}
      → IsValid h
      → insert_in_tx cbor h p ≡ ok (h', id)
      → IsValid h'
  insert_in_tx-IsValid h p v e = Inserted-IsValid (insert_in_tx-Inserted h p _ _ e) v

  holders-Inserted :
      {h h' : History} {p : InsertParams} {id : ℕ} → Inserted h p h' id → length (holders h' p) ≡ 1
  holders-Inserted {h} {h'} {p} {id} i =
      let r = new_row cbor id p i.kind i.body in
      rw
        (
          i.table,
          select-append (has_key p.group_id p.envelope.id) h.rows (r ∷ []),
          length-append (holders h p) (select (has_key p.group_id p.envelope.id) (r ∷ [])),
          i.was_free,
        )
        (unfold select in rw (same_refl p.group_id, same_refl p.envelope.id) refl)

  -- As long as a row holds the key of a message, it is not stored.
  pub insert_in_tx-taken :
      (h : History) (p : InsertParams) (x : History × ℕ)
      → 0 < length (holders h p)
      → insert_in_tx cbor h p ≢ ok x
  insert_in_tx-taken h p (h', id) lt e =
      let i = insert_in_tx-Inserted h p h' id e in absurd (omega (arith, i.was_free, lt))

  -- A message that is stored in a valid table gets a new id and becomes the last row; the other
  -- rows stay, the table stays valid, one row holds its key, and no message with the same group
  -- and envelope id can be stored in the table then.
  pub insert_once :
      (h : History) (p : InsertParams) (h' : History) (id : ℕ) (q : InsertParams) (x : History × ℕ)
      → IsValid h
      → insert_in_tx cbor h p ≡ ok (h', id)
      → q.group_id ≡ p.group_id
      → q.envelope.id ≡ p.envelope.id
      → IsValid h'
        × (h.last_id < id)
        × ((r : Message) × (h'.rows ≡ h.rows ++ (r ∷ [])) × (r.id ≡ id) × (r.sender ≡ p.sender))
        × (length (holders h' p) ≡ 1)
        × (insert_in_tx cbor h' q ≢ ok x)
  insert_once h p h' id q x v e eg ei =
      let i = insert_in_tx-Inserted h p h' id e in
      (
        Inserted-IsValid i v,
        omega (arith, i.is_new),
        (new_row cbor id p i.kind i.body, ap (λ t. t.rows) i.table, refl, refl),
        holders-Inserted i,
        insert_in_tx-taken h' q x (rw (eg, ei) (omega (arith, holders-Inserted i))),
      )
