-- ===== src/History/Pruning.antt =====
-- Deleting rows: by age, down to the newest, and of a whole group.
use skattr.Base.{
  ℕ, zero, suc, ◌+◌, ◌<◌, ◌≡◌, ◌≢◌, refl, ap, ◌∙◌, sym, Bool, true, not, ◌&&◌, List, [], ◌∷◌,
  Option, none, some, Bytes, length, take, drop, leb, same_iff, select, length-select-le, All,
  All-select, order_by, arith, select-select, select-ext, select_none, All-map, select-order_by,
}
use skattr.History.{Message, History, in_group}
use skattr.History.Updates.{delete_rows, later, cutoff, is_up_to, prune_keep_last}
use skattr.History.Descending.{Descending, later_trans, later-total, Descending-order_later}
use skattr.History.Rows.{Ascending-select}
use skattr.History.Validity.{IsValid, KeysApart-select}

pub delete_rows-IsValid :
    (p : Message → Bool) (h : History) → IsValid h → IsValid (delete_rows p h).0
delete_rows-IsValid p h v = record {
  ascending = Ascending-select _ 0 h.rows v.ascending;
  old = All-select _ _ h.rows v.old;
  apart = KeysApart-select _ h.rows v.apart;
}

-- The id from which a row is deleted, of rows with the newest first.
abbrev head_id : List Message → Option ℕ
head_id [] = none
head_id (r ∷ _) = some r.id

abbrev above : Option ℕ → Message → Bool
above none r = true
above (some id) r = not (leb r.id id)

select-below :
    (n : ℕ) (rows : List Message) → All (λ x. x.id < n) rows → select (above (some n)) rows ≡ []
select-below n rows h = select_none _ rows (All-map _ _ rows (λ x lt. ground (arith, lt)) h)

head_id-drop :
    (r : Message) (k : ℕ) (rows : List Message)
    → All (λ x. x.id < r.id) rows
    → above (head_id (drop k rows)) r ≡ true
head_id-drop r zero [] h = refl
head_id-drop r zero (x ∷ rows) (lt, h) = ground (arith, lt)
head_id-drop r (suc k) [] h = refl
head_id-drop r (suc k) (x ∷ rows) (lt, h) = head_id-drop r k rows h

select-above :
    (k : ℕ) (rows : List Message)
    → Descending rows
    → select (above (head_id (drop k rows))) rows ≡ take k rows
unfolding select
select-above zero [] d = refl
select-above zero (r ∷ rows) (low, d) = ground (arith, select-below r.id rows low)
select-above (suc k) [] d = refl
select-above (suc k) (r ∷ rows) (low, d) =
    ground (arith, head_id-drop r k rows low, select-above k rows d)

cutoff-head_id :
    (h : History) (g : Bytes) (keep : ℕ)
    → cutoff h g keep ≡ head_id (drop keep (order_by later (select (in_group g) h.rows)))
unfolding cutoff
cutoff-head_id h g keep = go (drop keep (order_by later (select (in_group g) h.rows)))
  where
    go : (rows : List Message) → (elim rows [ [] ↦ none | r ∷ _ ↦ some r.id ]) ≡ head_id rows
    go [] = refl
    go (r ∷ rows) = refl

is_up_to-above :
    (g : Bytes) (c : Option ℕ) (r : Message)
    → (not (is_up_to g c r) && in_group g r) ≡ (in_group g r && above c r)
is_up_to-above g none r = ground arith
is_up_to-above g (some id) r = ground arith

is_up_to-other :
    (g o : Bytes) (c : Option ℕ) (r : Message)
    → g ≢ o
    → (not (is_up_to g c r) && in_group o r) ≡ in_group o r
is_up_to-other g o none r d = ground arith
is_up_to-other g o (some id) r d = ground (arith, same_iff r.group_id g, same_iff r.group_id o)

-- Pruning a group of a valid table down to its `keep` newest messages leaves these and no other of
-- the group, and every message of another group; it counts what it deletes, and the table stays
-- valid.
pub prune_keep_last_exact :
    (h : History) (g o : Bytes) (keep : ℕ)
    → IsValid h
    → g ≢ o
    → (order_by later (select (in_group g) (prune_keep_last h g keep).0.rows)
        ≡ take keep (order_by later (select (in_group g) h.rows)))
      × (select (in_group o) (prune_keep_last h g keep).0.rows ≡ select (in_group o) h.rows)
      × ((prune_keep_last h g keep).1 + length (prune_keep_last h g keep).0.rows ≡ length h.rows)
      × IsValid (prune_keep_last h g keep).0
unfolding prune_keep_last
prune_keep_last_exact h g o keep v d =
    let c = cutoff h g keep in
    let rows = select (in_group g) h.rows in
    (
      ap (order_by later) (
            select-select (in_group g) (λ r. not (is_up_to g c r)) h.rows
            ∙ select-ext _ _ h.rows (is_up_to-above g c)
            ∙ sym (select-select (above c) (in_group g) h.rows))
          ∙ sym (select-order_by later later_trans later-total (above c) rows)
          ∙ ap (λ x. select (above x) (order_by later rows)) (cutoff-head_id h g keep)
          ∙ select-above keep (order_by later rows)
              (Descending-order_later 0 rows (Ascending-select _ 0 h.rows v.ascending)),
      select-select (in_group o) (λ r. not (is_up_to g c r)) h.rows
          ∙ select-ext _ _ h.rows (λ r. is_up_to-other g o c r d),
      omega (arith, length-select-le (λ r. not (is_up_to g c r)) h.rows),
      delete_rows-IsValid (is_up_to g c) h v,
    )
