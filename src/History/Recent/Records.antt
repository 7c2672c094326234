-- ===== src/History/Recent/Records.antt =====
-- The records of a page, and its cursor.
use skattr.Base.{
  ℕ, suc, ◌≤◌, ◌<◌, ◌≡◌, refl, ap, subst, inl, inr, List, [], ◌∷◌, Option, none, some, Bytes,
  length, length-take, select, All, Has, order_by, arith, Option-cases,
}
use skattr.Base.Results.{ok}
use skattr.Wire.{Serde}
use skattr.Envelope.{Envelope}
use skattr.History.{Message, History, in_group, in_group_before, newer, recent, recent_before}
use skattr.History.Export.{to_records, project, direction_of}
use skattr.History.Recent.{MessagesPage, last_row_id, page_rows, to_page, recent_messages}

-- The id of the last row, or `n`.
abbrev pub end_of : ℕ → List Message → ℕ
end_of n [] = n
end_of n (r ∷ rows) = end_of r.id rows

module _ (cbor : Serde Envelope) (me peer : Bytes) where
  -- The blob of the row decodes.
  abbrev pub Decodes : Message → Type 0
  Decodes r = (e : Envelope) × (cbor.from_reader r.body_blob ≡ some e)

  to_records-some :
      (r : Message) (e : Envelope) (rows : List Message)
      → cbor.from_reader r.body_blob ≡ some e
      → to_records cbor me peer (r ∷ rows)
        ≡ project r e peer (direction_of me r) ∷ to_records cbor me peer rows
  unfolding to_records
  to_records-some r e rows k = ground (arith, k)

  to_records-none :
      (r : Message) (rows : List Message)
      → cbor.from_reader r.body_blob ≡ none
      → to_records cbor me peer (r ∷ rows) ≡ to_records cbor me peer rows
  unfolding to_records
  to_records-none r rows k = ground (arith, k)

  pub length-to_records :
      (rows : List Message) → All Decodes rows → length (to_records cbor me peer rows) ≡ length rows
  length-to_records [] h = unfold to_records in refl
  length-to_records (r ∷ rows) ((e, k), h) =
      rw (to_records-some r e rows k) (ap suc (length-to_records rows h))

  pub last_row_id-to_records :
      (n : ℕ) (rows : List Message)
      → All Decodes rows
      → 0 < length rows
      → last_row_id (to_records cbor me peer rows) ≡ some (end_of n rows)
  unfolding last_row_id project
  last_row_id-to_records n [] h lt = absurd (omega arith)
  last_row_id-to_records n (r ∷ []) ((e, k), h) lt =
      rw (to_records-some r e [] k) (unfold to_records in refl)
  last_row_id-to_records n (r ∷ x ∷ rows) ((e, k), ((f, j), h)) lt =
      let ih = last_row_id-to_records r.id (x ∷ rows) ((f, j), h) (omega arith) in
      rw (to_records-some r e (x ∷ rows) k, to_records-some x f rows j)
        (rw (to_records-some x f rows j) at ih)

  length-to_records_le : (rows : List Message) → length (to_records cbor me peer rows) ≤ length rows
  length-to_records_le [] = unfold to_records in omega arith
  length-to_records_le (r ∷ rows) = elim (Option-cases (cbor.from_reader r.body_blob)) [
    | inl k ↦ rw (to_records-none r rows k) (omega (arith, length-to_records_le rows))
    | inr (e, k) ↦ rw (to_records-some r e rows k) (omega (arith, length-to_records_le rows))
  ]

  length-to_records_lt :
      (rows : List Message) (r : Message)
      → Has r rows
      → cbor.from_reader r.body_blob ≡ none
      → length (to_records cbor me peer rows) < length rows
  length-to_records_lt [] r h e = absurd h
  length-to_records_lt (x ∷ rows) r (inl p) e =
      let k : cbor.from_reader x.body_blob ≡ none =
        subst (λ y. cbor.from_reader y.body_blob ≡ none) p e in
      rw (to_records-none x rows k) (omega (arith, length-to_records_le rows))
  length-to_records_lt (x ∷ rows) r (inr h) e = elim (Option-cases (cbor.from_reader x.body_blob)) [
    | inl k ↦ rw (to_records-none x rows k) (omega (arith, length-to_records_le rows))
    | inr (f, k) ↦ rw (to_records-some x f rows k) (omega (arith, length-to_records_lt rows r h e))
  ]

  length-page_rows :
      (h : History) (g : Bytes) (limit : ℕ) (before : Option ℕ)
      → length (page_rows h g limit before) ≤ limit
  unfolding page_rows recent recent_before
  length-page_rows h g limit none =
      omega (arith, length-take limit (order_by newer (select (in_group g) h.rows)))
  length-page_rows h g limit (some b) =
      omega (arith, length-take limit (order_by newer (select (in_group_before g b) h.rows)))

  -- A page that holds a message that does not decode gives no cursor: the client takes it for the
  -- last page, whatever older messages there are.
  pub undecodable_ends :
      (h : History) (b : ℕ) (g : Bytes) (limit : ℕ) (before : Option ℕ) (r : Message)
      (page : MessagesPage)
      → Has r (page_rows h (b ∷ g) limit before)
      → cbor.from_reader r.body_blob ≡ none
      → recent_messages cbor me peer h (some (b ∷ g)) limit before ≡ ok page
      → page.next_before_id ≡ none
  unfolding recent_messages to_page
  undecodable_ends h b g limit before r page m e p =
      let le = length-page_rows h (b ∷ g) limit before in
      let lt = length-to_records_lt (page_rows h (b ∷ g) limit before) r m e in
      ground (arith, lt, le, p)
