-- ===== src/History/Descending.antt =====
-- Rows sorted by falling id.
use skattr.Base.{
  ℕ, ◌<◌, ◌≡◌, refl, true, false, List, [], ◌∷◌, ◌++◌, All, All-append, order_by, insert_before,
  arith, All-order_by,
}
use skattr.History.{Message}
use skattr.History.Updates.{later}
use skattr.History.Rows.{Ascending, Ascending-All}

-- Newest first, and strictly so.
abbrev pub Descending : List Message → Type 0
Descending [] = Unit {0}
Descending (r ∷ rows) = All (λ x. x.id < r.id) rows × Descending rows

pub later_trans : (a b c : Message) → later a b ≡ true → later b c ≡ true → later a c ≡ true
later_trans a b c e f = ground (arith, e, f)

pub later-total : (a b : Message) → later a b ≡ false → later b a ≡ true
later-total a b e = ground (arith, e)

-- Sorting rising ids by falling id puts the first row last.
pub insert_later-last :
    (a : Message) (rows : List Message)
    → All (λ x. a.id < x.id) rows
    → insert_before later a rows ≡ rows ++ (a ∷ [])
unfolding insert_before
insert_later-last a [] h = refl
insert_later-last a (x ∷ rows) (lt, h) = ground (arith, lt, insert_later-last a rows h)

pub Descending-append :
    (a : Message) (rows : List Message)
    → Descending rows
    → All (λ x. a.id < x.id) rows
    → Descending (rows ++ (a ∷ []))
Descending-append a [] d h = (tt, tt)
Descending-append a (x ∷ rows) (low, d) (lt, h) =
    (All-append _ rows (a ∷ []) low (lt, tt), Descending-append a rows d h)

pub Descending-order_later :
    (n : ℕ) (rows : List Message) → Ascending n rows → Descending (order_by later rows)
unfolding order_by
Descending-order_later n [] a = tt
Descending-order_later n (r ∷ rows) (lt, a) =
    let rest = order_by later rows in
    let high = All-order_by later _ rows (Ascending-All r.id rows a) in
    rw (insert_later-last r rest high)
      (Descending-append r rest (Descending-order_later r.id rows a) high)
