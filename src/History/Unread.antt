-- ===== src/History/Unread.antt =====
-- The number of unread messages.
use skattr.Base.{
  ℕ, ◌+◌, ◌≤◌, ◌<◌, ◌≡◌, ◌≢◌, refl, ap, ◌∙◌, not, List, [], ◌∷◌, Option, none, some, Bytes, length,
  length-append, same, same_iff, same_refl, select, select-append, arith, All-map, select_none,
}
use skattr.Base.Results.{ok}
use skattr.Wire.{Serde}
use skattr.Envelope.{Envelope}
use skattr.History.{
  Message, History, InsertParams, new_row, in_group_after, is_unread, cursor, unread_count,
  mark_read, insert_in_tx,
}
use skattr.History.Validity.{IsValid}
use skattr.History.Insert.{insert_in_tx-Inserted}

cursor-select_other :
    (g o : Bytes) (cs : List (Bytes × ℕ))
    → g ≢ o
    → cursor o (select (λ c. not (same c.0 g)) cs) ≡ cursor o cs
unfolding cursor select
cursor-select_other g o [] d = refl
cursor-select_other g o ((k, n) ∷ cs) d =
    ground (arith, cursor-select_other g o cs d, same_iff k g, same_iff k o)

-- Marking a group of a valid table read up to the last id that was given out leaves no unread
-- message in it, and the counts of the other groups stay.
pub mark_read_all :
    (h : History) (g o : Bytes)
    → IsValid h
    → g ≢ o
    → (unread_count (mark_read h g h.last_id) g ≡ 0)
      × (unread_count (mark_read h g h.last_id) o ≡ unread_count h o)
unfolding unread_count mark_read
mark_read_all h g o v d =
    let own : cursor g (mark_read h g h.last_id).read_state ≡ some h.last_id =
      unfold cursor in rw (same_refl g) refl in
    let other : cursor o (mark_read h g h.last_id).read_state ≡ cursor o h.read_state =
      unfold cursor in ground (arith, same_iff g o, cursor-select_other g o h.read_state d) in
    (
      rw own (
          ap length (
            select_none (in_group_after g h.last_id) h.rows
              (All-map _ _ h.rows (λ r le. ground (arith, le)) v.old))),
      rw other refl,
    )

-- The cursor of the group, if it has one, names an id that was given out.
abbrev pub IsRead : History → Bytes → Type 0
IsRead h g = (n : ℕ) → cursor g h.read_state ≡ some n → n ≤ h.last_id

module _ (cbor : Serde Envelope) where
  -- A message that is stored counts as unread in its group once, and in no other.
  pub unread_count-insert :
      (h : History) (p : InsertParams) (h' : History) (id : ℕ) (o : Bytes)
      → insert_in_tx cbor h p ≡ ok (h', id)
      → IsRead h p.group_id
      → p.group_id ≢ o
      → (unread_count h' p.group_id ≡ unread_count h p.group_id + 1)
        × (unread_count h' o ≡ unread_count h o)
  unfolding unread_count
  unread_count-insert h p h' id o e read d =
      let i = insert_in_tx-Inserted cbor h p h' id e in
      let r = new_row cbor id p i.kind i.body in
      let unread = λ (c : Option ℕ) (g : Bytes). select (is_unread c g) in
      let split = λ (c : Option ℕ) (g : Bytes).
        ap (λ (t : History). length (unread c g t.rows)) i.table
        ∙ ap length (select-append (is_unread c g) h.rows (r ∷ []))
        ∙ length-append (unread c g h.rows) (unread c g (r ∷ [])) in
      let kept = λ (g : Bytes). ap (λ (t : History). cursor g t.read_state) i.table in
      (
        rw (kept p.group_id, split (cursor p.group_id h.read_state) p.group_id)
            (ap (λ n. length (unread (cursor p.group_id h.read_state) p.group_id h.rows) + n)
              (own (cursor p.group_id h.read_state) r refl
                (λ n c. omega (arith, read n c, i.is_new)))),
        rw (kept o, split (cursor o h.read_state) o)
            (let none_new = foreign (cursor o h.read_state) r d in omega (arith, none_new)),
      )
    where
      own :
          (c : Option ℕ) (r : Message)
          → r.group_id ≡ p.group_id
          → ((n : ℕ) → c ≡ some n → n < r.id)
          → length (select (is_unread c p.group_id) (r ∷ [])) ≡ 1
      own none r e new = unfold select in ground (arith, same_iff r.group_id p.group_id)
      own (some n) r e new =
          let lt = new n refl in unfold select in ground (arith, lt, same_iff r.group_id p.group_id)

      foreign :
          (c : Option ℕ) (r : Message)
          → r.group_id ≢ o
          → length (select (is_unread c o) (r ∷ [])) ≡ 0
      foreign none r d = unfold select in ground (arith, same_iff r.group_id o)
      foreign (some n) r d = unfold select in ground (arith, same_iff r.group_id o)
