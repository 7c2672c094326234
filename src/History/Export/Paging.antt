-- ===== src/History/Export/Paging.antt =====
-- What the loop over the pages of an export writes.
use skattr.Base.{
  ℕ, zero, suc, ◌≤◌, ◌<◌, ◌≡◌, ◌≢◌, refl, ap, ◌∙◌, sym, inl, inr, ◌⊎◌, true, false, List, [], ◌∷◌,
  ◌++◌, Option, none, some, Bytes, length, length-take, length-drop, take, drop, take-append-drop,
  ◌==◌, if◌then◌else◌, select, order_by-Ordered, arith, Bool-cases, select-select, select-ext,
}
use skattr.Base.Results.{ok}
use skattr.Wire.{Serde}
use skattr.Envelope.{Envelope}
use skattr.History.{Message, History, older, in_group, in_group_after, export_page}
use skattr.History.Rows.{
  Ascending, Ascending-select, Ascending-Ordered, Ascending-after, select-after_zero, last_or,
  last_or-ge, is_after, select-is_after,
}
use skattr.History.Export.{ExportPage, last_id, to_records, export_history, export_loop}

pub take_all : {A : Type 0} (k : ℕ) (xs : List A) → length xs ≤ k → take k xs ≡ xs
take_all zero [] le = refl
take_all zero (x ∷ xs) le = absurd (omega arith)
take_all (suc k) [] le = refl
take_all (suc k) (x ∷ xs) le = ap (λ t. x ∷ t) (take_all k xs (omega arith))

last_id-last_or :
    (n : ℕ) (r : Message) (rows : List Message) → last_id (r ∷ rows) ≡ some (last_or n (r ∷ rows))
unfolding last_id
last_id-last_or n r [] = refl
last_id-last_or n r (x ∷ rows) = last_id-last_or r.id x rows

last_id-take :
    (n k : ℕ) (rows : List Message)
    → 0 < length (take k rows)
    → last_id (take k rows) ≡ some (last_or n (take k rows))
last_id-take n zero rows lt = absurd (omega arith)
last_id-take n (suc k) [] lt = absurd (omega arith)
last_id-take n (suc k) (r ∷ rows) lt = last_id-last_or n r (take k rows)

-- A page is full, and the loop goes on after its last row, or it is the rest.
page_cases :
    (n k : ℕ) (rows : List Message)
    → 0 < k
    → ((length (take k rows) == k) ≡ true)
        × (last_id (take k rows) ≡ some (last_or n (take k rows)))
        × (length (drop k rows) < length rows)
      ⊎ (((length (take k rows) == k) ≡ false) × (take k rows ≡ rows))
page_cases n k rows pos = elim (Bool-cases (length (take k rows) == k)) [
  | inl e ↦
      let full : length (take k rows) ≡ k = ground (arith, e) in
      inl (
        e,
        last_id-take n k rows (omega (arith, full)),
        omega (arith, full, length-take k rows, length-drop k rows),
      )
  | inr e ↦
      let short : length (take k rows) ≢ k = ground (arith, e) in
      inr (e, take_all k rows (ground (arith, length-take k rows)))
]

module _ (cbor : Serde Envelope) (me contact : Bytes) where
  pub to_records-append :
      (xs ys : List Message)
      → to_records cbor me contact (xs ++ ys)
        ≡ to_records cbor me contact xs ++ to_records cbor me contact ys
  unfolding to_records
  to_records-append [] ys = refl
  to_records-append (x ∷ xs) ys = ground (arith, to_records-append xs ys)

  -- The rows of the group from `n` on.
  abbrev pub rest_of : History → Bytes → ℕ → List Message
  rest_of h g n = select (in_group_after g n) h.rows

  abbrev pub start : Option ℕ → ℕ
  start none = 0
  start (some n) = n

  page_records : (k : ℕ) → List Message → ExportPage
  page_records k rows = record {
    records = to_records cbor me contact (take k rows);
    next_after_id = if length (take k rows) == k then last_id (take k rows) else none;
  }

  export_history-page :
      (h : History) (b : ℕ) (g : Bytes) (after : Option ℕ)
      → Ascending 0 h.rows
      → export_history cbor me contact h (some (b ∷ g)) after 1000
        ≡ ok (page_records 1000 (rest_of h (b ∷ g) (start after)))
  unfolding export_history export_page page_records
  export_history-page h b g none a =
      let rows = rest_of h (b ∷ g) 0 in
      rw (order_by-Ordered older rows (Ascending-Ordered 0 rows (Ascending-select _ 0 h.rows a)))
        (ground arith)
  export_history-page h b g (some n) a =
      let rows = rest_of h (b ∷ g) n in
      rw (order_by-Ordered older rows (Ascending-Ordered 0 rows (Ascending-select _ 0 h.rows a)))
        (ground arith)

  rest_of-rest_of :
      (h : History) (g : Bytes) (n m : ℕ)
      → n ≤ m
      → rest_of h g m ≡ select (is_after m) (rest_of h g n)
  rest_of-rest_of h g n m le = sym (
      select-select (is_after m) (in_group_after g n) h.rows
      ∙ select-ext _ (in_group_after g m) h.rows (λ r. ground (arith, le)))

  export_loop-rest_of :
      (fuel : ℕ) (h : History) (b : ℕ) (g : Bytes) (after : Option ℕ)
      → Ascending 0 h.rows
      → length (rest_of h (b ∷ g) (start after)) < fuel
      → export_loop cbor me contact fuel h (some (b ∷ g)) after
        ≡ some (ok (to_records cbor me contact (rest_of h (b ∷ g) (start after))))
  unfolding export_loop page_records
  export_loop-rest_of zero h b g after a lt = absurd (omega arith)
  export_loop-rest_of (suc fuel) h b g after a lt =
      let n = start after in
      let rows = rest_of h (b ∷ g) n in
      let asc : Ascending n rows = Ascending-after (b ∷ g) 0 n h.rows a in
      rw (export_history-page h b g after a) (elim (page_cases n 1000 rows (omega arith)) [
        | inl (full, last, less) ↦
            let m = last_or n (take 1000 rows) in
            let left : rest_of h (b ∷ g) m ≡ drop 1000 rows =
              rest_of-rest_of h (b ∷ g) n m (last_or-ge n 1000 rows asc)
              ∙ select-is_after n 1000 rows asc in
            let more =
              export_loop-rest_of fuel h b g (some m) a (omega (arith, less, ap length left)) in
            rw
              (
                full,
                last,
                more,
                left,
                ← to_records-append (take 1000 rows) (drop 1000 rows),
                take-append-drop 1000 rows,
              )
              refl
        | inr (short, whole) ↦ rw (short, whole) refl
      ])

  -- The export of a contact with a group ends after fewer requests than the group has messages, but
  -- for one, and writes the record of every message of the group that decodes, oldest first, each
  -- once.
  pub export_complete :
      (h : History) (b : ℕ) (g : Bytes) (fuel : ℕ)
      → Ascending 0 h.rows
      → length (select (in_group (b ∷ g)) h.rows) < fuel
      → export_loop cbor me contact fuel h (some (b ∷ g)) none
        ≡ some (ok (to_records cbor me contact (select (in_group (b ∷ g)) h.rows)))
  export_complete h b g fuel a lt =
      let whole : rest_of h (b ∷ g) 0 ≡ select (in_group (b ∷ g)) h.rows =
        select-after_zero (b ∷ g) 0 h.rows a in
      export_loop-rest_of fuel h b g none a (omega (arith, ap length whole))
      ∙ ap (λ rows. some (ok (to_records cbor me contact rows))) whole
