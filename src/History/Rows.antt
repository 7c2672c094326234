-- ===== src/History/Rows.antt =====
-- Rows in the order of their ids, and the tables that the repository makes.
use skattr.Base.{
  ℕ, zero, suc, ◌≤◌, ◌<◌, ◌≡◌, refl, inl, inr, Bool, true, List, [], ◌∷◌, ◌++◌, Bytes, take, drop,
  ltb, if◌then◌else◌, select, All, Ordered, arith, Bool-cases, select-all,
}
use skattr.History.{Message, older, in_group, in_group_after}

-- The ids rise along the rows, from above `n`.
abbrev pub Ascending : ℕ → List Message → Type 0
Ascending n [] = Unit {0}
Ascending n (r ∷ rows) = (n < r.id) × Ascending r.id rows

pub Ascending-weaken : (m n : ℕ) (rows : List Message) → m ≤ n → Ascending n rows → Ascending m rows
Ascending-weaken m n [] le a = tt
Ascending-weaken m n (r ∷ rows) le (lt, a) = (omega arith, a)

pub Ascending-All : (n : ℕ) (rows : List Message) → Ascending n rows → All (λ r. n < r.id) rows
Ascending-All n [] a = tt
Ascending-All n (r ∷ rows) (lt, a) =
    (lt, Ascending-All n rows (Ascending-weaken n r.id rows (omega arith) a))

pub Ascending-select :
    (p : Message → Bool) (n : ℕ) (rows : List Message)
    → Ascending n rows
    → Ascending n (select p rows)
unfolding select
Ascending-select p n [] a = tt
Ascending-select p n (r ∷ rows) (lt, a) = elim (Bool-cases (p r)) [
  | inl e ↦ rw (e, if◌then◌else◌) (lt, Ascending-select p r.id rows a)
  | inr e ↦
      rw (e, if◌then◌else◌)
        (Ascending-weaken n r.id _ (omega arith) (Ascending-select p r.id rows a))
]

pub Ascending-append :
    (n : ℕ) (rows : List Message) (r : Message)
    → Ascending n rows
    → All (λ x. x.id < r.id) rows
    → n < r.id
    → Ascending n (rows ++ (r ∷ []))
Ascending-append n [] r a old lt = (lt, tt)
Ascending-append n (x ∷ rows) r (l, a) (ox, old) lt = (l, Ascending-append x.id rows r a old ox)

pub Ascending-Ordered : (n : ℕ) (rows : List Message) → Ascending n rows → Ordered older rows
Ascending-Ordered n [] a = tt
Ascending-Ordered n (r ∷ rows) (lt, a) =
    (All-le r rows (Ascending-All r.id rows a), Ascending-Ordered r.id rows a)
  where
    All-le :
        (x : Message) (xs : List Message)
        → All (λ y. x.id < y.id) xs
        → All (λ y. older x y ≡ true) xs
    All-le x [] h = tt
    All-le x (y ∷ xs) (hy, h) = (ground (arith, hy), All-le x xs h)

-- Rows have ids from 1 on.
pub select-after_zero :
    (g : Bytes) (m : ℕ) (rows : List Message)
    → Ascending m rows
    → select (in_group_after g 0) rows ≡ select (in_group g) rows
unfolding select
select-after_zero g m [] a = refl
select-after_zero g m (r ∷ rows) (lt, a) = ground (arith, lt, select-after_zero g r.id rows a)

-- The id of the last row, or that of the row before.
abbrev pub last_or : ℕ → List Message → ℕ
last_or n [] = n
last_or n (r ∷ rows) = last_or r.id rows

abbrev pub is_after : ℕ → Message → Bool
is_after n r = ltb n r.id

pub last_or-ge : (n k : ℕ) (rows : List Message) → Ascending n rows → n ≤ last_or n (take k rows)
last_or-ge n zero rows a = omega arith
last_or-ge n (suc k) [] a = omega arith
last_or-ge n (suc k) (r ∷ rows) (lt, a) = omega (arith, last_or-ge r.id k rows a)

-- What comes after a page is what the page leaves.
pub select-is_after :
    (n k : ℕ) (rows : List Message)
    → Ascending n rows
    → select (is_after (last_or n (take k rows))) rows ≡ drop k rows
unfolding select
select-is_after n zero rows a =
    select-all (is_after n) rows (All-after rows (Ascending-All n rows a))
  where
    All-after : (xs : List Message) → All (λ y. n < y.id) xs → All (λ y. is_after n y ≡ true) xs
    All-after [] h = tt
    All-after (y ∷ xs) (hy, h) = (ground (arith, hy), All-after xs h)
select-is_after n (suc k) [] a = refl
select-is_after n (suc k) (r ∷ rows) (lt, a) =
    ground (arith, last_or-ge r.id k rows a, select-is_after r.id k rows a)

pub Ascending-after :
    (g : Bytes) (m n : ℕ) (rows : List Message)
    → Ascending m rows
    → Ascending n (select (in_group_after g n) rows)
unfolding select
Ascending-after g m n [] a = tt
Ascending-after g m n (r ∷ rows) (lt, a) = elim (Bool-cases (in_group_after g n r)) [
  | inl e ↦ rw (e, if◌then◌else◌) (ground (arith, e), Ascending-select _ r.id rows a)
  | inr e ↦ rw (e, if◌then◌else◌) (Ascending-after g r.id n rows a)
]
