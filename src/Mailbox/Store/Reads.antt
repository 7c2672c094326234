-- ===== src/Mailbox/Store/Reads.antt =====
-- `Store::fetch`: what it returns, and in which order.
use skattr.Base.{
  ℕ, ◌≤◌, ◌<◌, ◌≡◌, inl, inr, refl, sym, ap, subst, true, List, [], ◌∷◌, map, Bytes, arith,
  Bool-cases, if◌then◌else◌, same_iff, ◌↔◌, leb, select, Has, Has-select, Has-select_inv,
}
use skattr.Mailbox.Store.{
  Row, Table, StoredDeposit, by_age, insert_by_age, is_pending, to_stored, fetch,
}
use skattr.Mailbox.Store.Rows.{Has-by_age, Has-by_age_inv}

pub Has-map : {A B : Type 0} (f : A → B) (a : A) (xs : List A) → Has a xs → Has (f a) (map f xs)
Has-map f a [] h = absurd h
Has-map f a (x ∷ xs) (inl e) = inl (ap f e)
Has-map f a (x ∷ xs) (inr h) = inr (Has-map f a xs h)

pub Has-map_inv :
    {A B : Type 0} (f : A → B) (b : B) (xs : List A)
    → Has b (map f xs)
    → (a : A) × (Has a xs × (b ≡ f a))
Has-map_inv f b [] h = absurd h
Has-map_inv f b (x ∷ xs) (inl e) = (x, (inl refl, e))
Has-map_inv f b (x ∷ xs) (inr h) = let (a, (m, e)) = Has-map_inv f b xs h in (a, (inr m, e))

-- A row of the recipient that has not run out.
abbrev pub Pending : Table → Bytes → ℕ → StoredDeposit → Type 0
Pending t h now d =
    (r : Row) × (Has r t × ((r.recipient_hash ≡ h) × ((now < r.expires_at) × (d ≡ to_stored r))))

-- `fetch` returns a deposit exactly when a row of that recipient holds it whose expiry is later
-- than now.
pub fetch_iff :
    (t : Table) (h : Bytes) (now : ℕ) (d : StoredDeposit)
    → Has d (fetch t h now) ↔ Pending t h now d
unfolding fetch
fetch_iff t h now d = (sound, complete)
  where
    sound : Has d (map to_stored (by_age (select (is_pending h now) t))) → Pending t h now d
    sound m =
        let (r, (k, e)) = Has-map_inv to_stored d (by_age (select (is_pending h now) t)) m in
        let (p, i) =
          Has-select_inv (is_pending h now) r t
            (Has-by_age_inv r (select (is_pending h now) t) k) in
        (r, (i, (ground (arith, p, same_iff r.recipient_hash h), (ground (arith, p), e))))

    complete : Pending t h now d → Has d (map to_stored (by_age (select (is_pending h now) t)))
    complete (r, (i, (eh, (later, e)))) =
        let p : is_pending h now r ≡ true = ground (arith, same_iff r.recipient_hash h) in
        subst (λ x. Has x (map to_stored (by_age (select (is_pending h now) t)))) (sym e)
          (Has-map to_stored r (by_age (select (is_pending h now) t))
            (Has-by_age r (select (is_pending h now) t) (Has-select (is_pending h now) r t p i)))

-- The times of receipt rise along the answer.
abbrev pub FromTime : ℕ → List StoredDeposit → Type 0
FromTime n [] = Unit {0}
FromTime n (d ∷ ds) = (n ≤ d.received_at) × FromTime d.received_at ds

abbrev pub OldestFirst : List StoredDeposit → Type 0
OldestFirst = FromTime 0

FromTime-insert :
    (n : ℕ) (r : Row) (t : Table)
    → n ≤ r.deposited_at
    → FromTime n (map to_stored t)
    → FromTime n (map to_stored (insert_by_age r t))
unfolding insert_by_age
FromTime-insert n r [] le f = (le, tt)
FromTime-insert n r (x ∷ t) le (lx, f) = elim (Bool-cases (leb r.deposited_at x.deposited_at)) [
  | inl e ↦ rw (e, if◌then◌else◌) (le, (ground (arith, e), f))
  | inr e ↦ rw (e, if◌then◌else◌) (lx, FromTime-insert x.deposited_at r t (ground (arith, e)) f)
]

OldestFirst-by_age : (t : Table) → OldestFirst (map to_stored (by_age t))
unfolding by_age
OldestFirst-by_age [] = tt
OldestFirst-by_age (r ∷ t) = FromTime-insert 0 r (by_age t) (omega arith) (OldestFirst-by_age t)

-- `fetch` returns the deposits oldest first.
pub fetch_sorted : (t : Table) (h : Bytes) (now : ℕ) → OldestFirst (fetch t h now)
unfolding fetch
fetch_sorted t h now = OldestFirst-by_age (select (is_pending h now) t)
