-- ===== src/History/Recent/Scrolling.antt =====
-- A client that follows the cursors of the pages.
use skattr.Base.{
  ℕ, zero, suc, ◌≤◌, ◌<◌, ◌≡◌, ◌≢◌, refl, ap, ◌∙◌, sym, inl, inr, ◌⊎◌, Bool, true, false, List, [],
  ◌∷◌, Option, none, some, Bytes, length, length-take, length-drop, take, drop, take-append-drop,
  ltb, ◌==◌, if◌then◌else◌, select, All, All-select, order_by, arith, Bool-cases, select-select,
  select-ext, select-all, All-map, select-order_by, All-order_by,
}
use skattr.Base.Results.{Result, ok, err}
use skattr.Wire.{Serde}
use skattr.Envelope.{Envelope}
use skattr.History.{Message, History, in_group, newer, recent, recent_before}
use skattr.History.Updates.{later}
use skattr.History.Rows.{Ascending-select}
use skattr.History.Validity.{IsValid}
use skattr.History.Descending.{Descending, Descending-order_later, later_trans, later-total}
use skattr.History.Export.{Export, ExportError, after_page, prepend, to_records}
use skattr.History.Export.Paging.{take_all, to_records-append}
use skattr.History.Recent.Records.{end_of, Decodes, length-to_records, last_row_id-to_records}
use skattr.History.Recent.Rising.{Rising, order_by-newer}
use skattr.History.Recent.{MessagesPage, page_rows, to_page, recent_messages}

abbrev is_below : ℕ → Message → Bool
is_below n r = ltb r.id n

end_of-le :
    (n k : ℕ) (rows : List Message)
    → All (λ x. x.id < n) rows
    → Descending rows
    → end_of n (take k rows) ≤ n
end_of-le n zero rows low d = omega arith
end_of-le n (suc k) [] low d = omega arith
end_of-le n (suc k) (r ∷ rows) (lt, low) (lr, d) = omega (arith, lt, end_of-le r.id k rows lr d)

-- What lies below the last row of a page is what the page leaves.
select-is_below :
    (n k : ℕ) (rows : List Message)
    → All (λ x. x.id < n) rows
    → Descending rows
    → select (is_below (end_of n (take k rows))) rows ≡ drop k rows
unfolding select
select-is_below n zero rows low d =
    select-all _ rows (All-map _ _ rows (λ x h. ground (arith, h)) low)
select-is_below n (suc k) [] low d = refl
select-is_below n (suc k) (r ∷ rows) (lt, low) (lr, d) =
    ground (arith, end_of-le r.id k rows lr d, select-is_below r.id k rows lr d)

Rising-weaken : (m n : ℕ) (rows : List Message) → m ≤ n → Rising n rows → Rising m rows
Rising-weaken m n [] le h = tt
Rising-weaken m n (r ∷ rows) le (lr, h) = (omega arith, h)

Rising-select :
    (p : Message → Bool) (n : ℕ) (rows : List Message) → Rising n rows → Rising n (select p rows)
unfolding select
Rising-select p n [] h = tt
Rising-select p n (r ∷ rows) (le, h) = elim (Bool-cases (p r)) [
  | inl e ↦ rw (e, if◌then◌else◌) (le, Rising-select p r.mls_generation rows h)
  | inr e ↦
      rw (e, if◌then◌else◌)
        (Rising-weaken n r.mls_generation _ le (Rising-select p r.mls_generation rows h))
]

Descending-select :
    (p : Message → Bool) (rows : List Message) → Descending rows → Descending (select p rows)
unfolding select
Descending-select p [] d = tt
Descending-select p (r ∷ rows) (low, d) = elim (Bool-cases (p r)) [
  | inl e ↦ rw (e, if◌then◌else◌) (All-select _ p rows low, Descending-select p rows d)
  | inr e ↦ rw (e, if◌then◌else◌) (Descending-select p rows d)
]

-- The messages of a group, newest first, and those of them below an id.
abbrev pub newest : History → Bytes → List Message
newest h g = order_by later (select (in_group g) h.rows)

abbrev below : History → Bytes → ℕ → List Message
below h g n = select (is_below n) (newest h g)

abbrev start : History → Option ℕ → ℕ
start h none = suc h.last_id
start h (some b) = b

All-below : (n : ℕ) (rows : List Message) → All (λ x. x.id < n) (select (is_below n) rows)
unfolding select
All-below n [] = tt
All-below n (r ∷ rows) = elim (Bool-cases (is_below n r)) [
  | inl e ↦ rw (e, if◌then◌else◌) (ground (arith, e), All-below n rows)
  | inr e ↦ rw (e, if◌then◌else◌) (All-below n rows)
]

module _ (h : History) (g : Bytes) (v : IsValid h)
    (rise : Rising 0 (select (in_group g) h.rows)) where
  page_rows-below :
      (limit : ℕ) (before : Option ℕ)
      → page_rows h g limit before ≡ take limit (below h g (start h before))
  unfolding page_rows recent recent_before
  page_rows-below limit none = ap (take limit) (
      order_by-newer 0 0 _ (Ascending-select (in_group g) 0 h.rows v.ascending) rise
      ∙ sym (
          select-all (is_below (suc h.last_id)) (newest h g) (
            All-order_by later _ _ (
              All-select _ (in_group g) h.rows
                (All-map _ _ h.rows (λ x le. ground (arith, le)) v.old)))))
  page_rows-below limit (some b) =
      let rows = select (in_group g) h.rows in
      let asc = Ascending-select (in_group g) 0 h.rows v.ascending in
      ap (take limit) (
        ap (order_by newer) (sym (select-select (is_below b) (in_group g) h.rows))
        ∙ order_by-newer 0 0 _ (Ascending-select (is_below b) 0 rows asc)
            (Rising-select (is_below b) 0 rows rise)
        ∙ sym (select-order_by later later_trans later-total (is_below b) rows))

  Descending-below : (n : ℕ) → Descending (below h g n)
  Descending-below n =
      Descending-select (is_below n) (newest h g)
        (Descending-order_later 0 _ (Ascending-select (in_group g) 0 h.rows v.ascending))

  below-page :
      (n limit : ℕ) → below h g (end_of n (take limit (below h g n))) ≡ drop limit (below h g n)
  below-page n limit =
      let m = end_of n (take limit (below h g n)) in
      let le : m ≤ n =
        end_of-le n limit (below h g n) (All-below n (newest h g)) (Descending-below n) in
      sym (
        select-select (is_below m) (is_below n) (newest h g)
        ∙ select-ext _ (is_below m) (newest h g) (λ r. ground (arith, le)))
      ∙ select-is_below n limit (below h g n) (All-below n (newest h g)) (Descending-below n)

  take_full :
      (n limit : ℕ)
      → 0 < limit
      → (length (take limit (below h g n)) ≡ limit)
          × (length (drop limit (below h g n)) < length (below h g n))
        ⊎ (length (take limit (below h g n)) ≢ limit) × (take limit (below h g n) ≡ below h g n)
  take_full n limit pos =
      let rows = below h g n in
      elim (Bool-cases (length (take limit rows) == limit)) [
        | inl e ↦
            inl
              (ground (arith, e), ground (arith, e, length-take limit rows, length-drop limit rows))
        | inr e ↦
            inr (ground (arith, e), take_all limit rows (ground (arith, e, length-take limit rows)))
      ]

module _ (cbor : Serde Envelope) (me peer : Bytes) where
  abbrev on_messages : Result ExportError MessagesPage → (Option ℕ → Export) → Export
  on_messages (err e) loop = some (err e)
  on_messages (ok page) loop = after_page page.records page.next_before_id loop

  -- A client that asks for pages until it gets no cursor; `none` means that the fuel ran out.
  abbrev pub scroll : ℕ → History → Bytes → ℕ → Option ℕ → Export
  scroll zero h g limit before = none
  scroll (suc fuel) h g limit before =
      on_messages (recent_messages cbor me peer h (some g) limit before) (scroll fuel h g limit)

  scroll-below :
      (fuel : ℕ) (h : History) (b : ℕ) (g : Bytes) (limit : ℕ) (before : Option ℕ)
      → IsValid h
      → Rising 0 (select (in_group (b ∷ g)) h.rows)
      → All (Decodes cbor me peer) (newest h (b ∷ g))
      → 0 < limit
      → length (below h (b ∷ g) (start h before)) < fuel
      → scroll fuel h (b ∷ g) limit before
        ≡ some (ok (to_records cbor me peer (below h (b ∷ g) (start h before))))
  unfolding recent_messages to_page after_page prepend
  scroll-below zero h b g limit before v rise dec pos lt = absurd (omega arith)
  scroll-below (suc fuel) h b g limit before v rise dec pos lt =
      let n = start h before in
      let rows = below h (b ∷ g) n in
      let page = take limit rows in
      let decs : All (Decodes cbor me peer) rows = All-select _ (is_below n) _ dec in
      let decp : All (Decodes cbor me peer) page = All-take limit rows decs in
      elim (take_full h (b ∷ g) v rise n limit pos) [
        | inl (full, less) ↦
            let m = end_of n page in
            let len = length-to_records cbor me peer page decp in
            let last = last_row_id-to_records cbor me peer n page decp (omega (arith, full, pos)) in
            let rest = below-page h (b ∷ g) v rise n limit in
            let more =
              scroll-below fuel h b g limit (some m) v rise dec pos
                (omega (arith, less, ap length rest)) in
            let test : (length (to_records cbor me peer page) == limit) ≡ true =
              ground (arith, len, full) in
            rw
              (
                page_rows-below h (b ∷ g) v rise limit before,
                test,
                last,
                more,
                rest,
                ← to_records-append cbor me peer page (drop limit rows),
                take-append-drop limit rows,
              )
              refl
        | inr (short, whole) ↦
            let test : (length (to_records cbor me peer page) == limit) ≡ false =
              ground (arith, length-to_records cbor me peer page decp, short) in
            rw (page_rows-below h (b ∷ g) v rise limit before, test)
              (ap (λ x. some (ok (to_records cbor me peer x))) whole)
      ]
    where
      All-take :
          (k : ℕ) (xs : List Message)
          → All (Decodes cbor me peer) xs
          → All (Decodes cbor me peer) (take k xs)
      All-take zero xs h = tt
      All-take (suc k) [] h = tt
      All-take (suc k) (x ∷ xs) (hx, h) = (hx, All-take k xs h)

  -- In a valid table whose group has no falling epoch and no message that does not decode, scrolling
  -- back ends after fewer requests than the group has messages, but for one, and shows every message
  -- of the group, newest first, each once.
  pub scroll_complete :
      (h : History) (b : ℕ) (g : Bytes) (limit fuel : ℕ)
      → IsValid h
      → Rising 0 (select (in_group (b ∷ g)) h.rows)
      → All (Decodes cbor me peer) (newest h (b ∷ g))
      → 0 < limit
      → length (newest h (b ∷ g)) < fuel
      → scroll fuel h (b ∷ g) limit none ≡ some (ok (to_records cbor me peer (newest h (b ∷ g))))
  scroll_complete h b g limit fuel v rise dec pos lt =
      let whole : below h (b ∷ g) (suc h.last_id) ≡ newest h (b ∷ g) =
        select-all (is_below (suc h.last_id)) (newest h (b ∷ g)) (
          All-order_by later _ _ (
            All-select _ (in_group (b ∷ g)) h.rows
              (All-map _ _ h.rows (λ x le. ground (arith, le)) v.old))) in
      scroll-below fuel h b g limit none v rise dec pos (omega (arith, lt, ap length whole))
      ∙ ap (λ rows. some (ok (to_records cbor me peer rows))) whole
