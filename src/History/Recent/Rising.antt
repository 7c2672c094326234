-- ===== src/History/Recent/Rising.antt =====
-- The order of `recent_messages` where the epochs do not fall.
use skattr.Base.{
  ℕ, ◌≤◌, ◌<◌, ◌≡◌, refl, ◌∙◌, sym, List, [], ◌∷◌, ◌++◌, All, order_by, insert_before, arith,
  All-map, All-order_by,
}
use skattr.History.{Message, newer}
use skattr.History.Updates.{later}
use skattr.History.Rows.{Ascending, Ascending-All}
use skattr.History.Descending.{insert_later-last}

-- The epochs do not fall along the rows.
abbrev pub Rising : ℕ → List Message → Type 0
Rising n [] = Unit {0}
Rising n (r ∷ rows) = (n ≤ r.mls_generation) × Rising r.mls_generation rows

Rising-All : (n : ℕ) (rows : List Message) → Rising n rows → All (λ r. n ≤ r.mls_generation) rows
Rising-All n [] h = tt
Rising-All n (r ∷ rows) (le, h) =
    (le, All-map _ _ rows (λ x k. omega (arith, k, le)) (Rising-All r.mls_generation rows h))

insert_newer-last :
    (a : Message) (rows : List Message)
    → All (λ x. a.id < x.id) rows
    → All (λ x. a.mls_generation ≤ x.mls_generation) rows
    → insert_before newer a rows ≡ rows ++ (a ∷ [])
unfolding insert_before
insert_newer-last a [] h k = refl
insert_newer-last a (x ∷ rows) (lt, h) (le, k) =
    ground (arith, lt, le, insert_newer-last a rows h k)

-- Then the order of the query is that of the ids.
pub order_by-newer :
    (n m : ℕ) (rows : List Message)
    → Ascending n rows
    → Rising m rows
    → order_by newer rows ≡ order_by later rows
unfolding order_by
order_by-newer n m [] a r = refl
order_by-newer n m (x ∷ rows) (lt, a) (le, r) =
    let rest = order_by later rows in
    let high = All-order_by later _ rows (Ascending-All x.id rows a) in
    rw (order_by-newer x.id x.mls_generation rows a r) (
      insert_newer-last x rest high (All-order_by later _ rows (Rising-All x.mls_generation rows r))
      ∙ sym (insert_later-last x rest high))
