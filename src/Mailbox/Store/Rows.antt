-- ===== src/Mailbox/Store/Rows.antt =====
-- Rows selected from the table: their bytes, their ids, their order.
use skattr.Base.{
  ◌+◌, ◌≤◌, ◌≡◌, refl, sym, ap, ◌∙◌, inl, inr, Bool, true, false, [], ◌∷◌, ◌++◌, Bytes, length,
  arith, Bool-cases, if◌then◌else◌, same, same_refl, same_sym, select, All, All-select, All-intro,
  All-Has, Has, leb,
}
use skattr.Mailbox.Store.{Row, Table, sum_bytes, not_id, insert_by_age, by_age}

-- No row of the table has the id.
abbrev pub Fresh : Bytes → Table → Type 0
Fresh id = All (λ r. same r.deposit_id id ≡ false)

-- `deposit_id` is a primary key.
abbrev pub Unique : Table → Type 0
Unique [] = Unit {0}
Unique (r ∷ t) = Fresh r.deposit_id t × Unique t

pub Unique-select : (p : Row → Bool) (t : Table) → Unique t → Unique (select p t)
unfolding select
Unique-select p [] u = tt
Unique-select p (r ∷ t) (f, u) = elim (Bool-cases (p r)) [
  | inl e ↦ rw (e, if◌then◌else◌) (All-select _ p t f, Unique-select p t u)
  | inr e ↦ rw (e, if◌then◌else◌) (Unique-select p t u)
]

pub Fresh-Has :
    (id : Bytes) (r : Row) (t : Table) → Fresh id t → Has r t → same r.deposit_id id ≡ false
Fresh-Has id r [] f h = absurd h
Fresh-Has id r (x ∷ t) (fx, f) (inl e) = rw e fx
Fresh-Has id r (x ∷ t) (fx, f) (inr h) = Fresh-Has id r t f h

-- Two rows of the table with one id are one row.
pub Unique-Has :
    (r c : Row) (t : Table)
    → Unique t
    → Has r t
    → Has c t
    → same r.deposit_id c.deposit_id ≡ true
    → r ≡ c
Unique-Has r c [] u hr hc e = absurd hr
Unique-Has r c (x ∷ t) (f, u) (inl a) (inl b) e = a ∙ sym b
Unique-Has r c (x ∷ t) (f, u) (inl a) (inr hc) e = cc (
  Fresh-Has x.deposit_id c t f hc,
  same_sym r.deposit_id c.deposit_id,
  ap (λ (y : Row). same c.deposit_id y.deposit_id) a,
)
Unique-Has r c (x ∷ t) (f, u) (inr hr) (inl b) e =
    cc (Fresh-Has x.deposit_id r t f hr, ap (λ (y : Row). same r.deposit_id y.deposit_id) b)
Unique-Has r c (x ∷ t) (f, u) (inr hr) (inr hc) e = Unique-Has r c t u hr hc e

pub sum_bytes-select-le : (p : Row → Bool) (t : Table) → sum_bytes (select p t) ≤ sum_bytes t
unfolding select sum_bytes
sum_bytes-select-le p [] = omega arith
sum_bytes-select-le p (r ∷ t) = ground (arith, sum_bytes-select-le p t)

pub sum_bytes-append : (t s : Table) → sum_bytes (t ++ s) ≡ sum_bytes t + sum_bytes s
unfolding sum_bytes
sum_bytes-append [] s = omega arith
sum_bytes-append (r ∷ t) s = omega (arith, sum_bytes-append t s)

-- Fewer rows of the table, fewer bytes of a selection.
pub sum_bytes-select-select :
    (q p : Row → Bool) (t : Table) → sum_bytes (select q (select p t)) ≤ sum_bytes (select q t)
unfolding select sum_bytes
sum_bytes-select-select q p [] = omega arith
sum_bytes-select-select q p (r ∷ t) = ground (arith, sum_bytes-select-select q p t)

-- A selection that the kept rows imply.
pub sum_bytes_mono :
    (q p : Row → Bool) (t : Table)
    → ((r : Row) → Has r t → q r ≡ true → p r ≡ true)
    → sum_bytes (select q t) ≤ sum_bytes (select p t)
unfolding select sum_bytes
sum_bytes_mono q p [] imp = omega arith
sum_bytes_mono q p (r ∷ t) imp =
    ground (arith, imp r (inl refl), sum_bytes_mono q p t (λ x h. imp x (inr h)))

-- What a deletion by id frees of a selection that held the row.
pub sum_bytes-not_id :
    (q : Row → Bool) (c : Row) (t : Table)
    → Has c t
    → q c ≡ true
    → sum_bytes (select q (select (not_id c.deposit_id) t)) + length c.ciphertext
      ≤ sum_bytes (select q t)
unfolding select sum_bytes
sum_bytes-not_id q c [] h e = absurd h
sum_bytes-not_id q c (x ∷ t) (inl a) e = ground (
  arith,
  same_refl c.deposit_id,
  ap (λ (y : Row). same y.deposit_id c.deposit_id) a,
  ap q a,
  ap (λ (y : Row). length y.ciphertext) a,
  sum_bytes-select-select q (not_id c.deposit_id) t,
)
sum_bytes-not_id q c (x ∷ t) (inr h) e = ground (arith, sum_bytes-not_id q c t h e)

pub select-all : (p : Row → Bool) (t : Table) → ((r : Row) → Has r t → p r ≡ true) → select p t ≡ t
unfolding select
select-all p [] h = refl
select-all p (r ∷ t) h = ground (arith, h r (inl refl), select-all p t (λ x k. h x (inr k)))

-- Ordering by age keeps the rows.
Has-insert_by_age : (r c : Row) (t : Table) → Has r (c ∷ t) → Has r (insert_by_age c t)
unfolding insert_by_age
Has-insert_by_age r c [] h = h
Has-insert_by_age r c (x ∷ t) h = elim (Bool-cases (leb c.deposited_at x.deposited_at)) [
  | inl e ↦ rw (e, if◌then◌else◌) h
  | inr e ↦ rw (e, if◌then◌else◌) (ground (arith, Has-insert_by_age r c t))
]

pub Has-by_age : (r : Row) (t : Table) → Has r t → Has r (by_age t)
unfolding by_age
Has-by_age r [] h = h
Has-by_age r (c ∷ t) (inl e) = Has-insert_by_age r c (by_age t) (inl e)
Has-by_age r (c ∷ t) (inr h) = Has-insert_by_age r c (by_age t) (inr (Has-by_age r t h))

All-insert_by_age {κ} :
    (P : Row → Type κ) (c : Row) (t : Table) → P c → All P t → All P (insert_by_age c t)
unfolding insert_by_age
All-insert_by_age P c [] hc h = (hc, tt)
All-insert_by_age P c (x ∷ t) hc (hx, h) = elim (Bool-cases (leb c.deposited_at x.deposited_at)) [
  | inl e ↦ rw (e, if◌then◌else◌) (hc, (hx, h))
  | inr e ↦ rw (e, if◌then◌else◌) (hx, All-insert_by_age P c t hc h)
]

pub All-by_age {κ} : (P : Row → Type κ) (t : Table) → All P t → All P (by_age t)
unfolding by_age
All-by_age P [] h = tt
All-by_age P (c ∷ t) (hc, h) = All-insert_by_age P c (by_age t) hc (All-by_age P t h)

Unique-insert_by_age :
    (c : Row) (t : Table) → Fresh c.deposit_id t → Unique t → Unique (insert_by_age c t)
unfolding insert_by_age
Unique-insert_by_age c [] f u = (tt, tt)
Unique-insert_by_age c (x ∷ t) (fx, f) (g, u) =
    elim (Bool-cases (leb c.deposited_at x.deposited_at)) [
      | inl e ↦ rw (e, if◌then◌else◌) ((fx, f), (g, u))
      | inr e ↦
          rw (e, if◌then◌else◌)
            (
              All-insert_by_age _ c t (same_sym c.deposit_id x.deposit_id ∙ fx) g,
              Unique-insert_by_age c t f u,
            )
    ]

pub Unique-by_age : (t : Table) → Unique t → Unique (by_age t)
unfolding by_age
Unique-by_age [] u = tt
Unique-by_age (c ∷ t) (f, u) =
    Unique-insert_by_age c (by_age t) (All-by_age _ t f) (Unique-by_age t u)

pub Has-by_age_inv : (r : Row) (t : Table) → Has r (by_age t) → Has r t
Has-by_age_inv r t h =
    All-Has (λ x. Has x t) r (by_age t) (All-by_age _ t (All-intro _ t (λ x m. m))) h
