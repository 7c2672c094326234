-- ===== src/Mailbox/Store/Removal.antt =====
-- `Store::delete` and `Store::expire_sweep`.
use skattr.Base.{
  ℕ, suc, ◌+◌, ◌-◌, ◌^◌, ◌≤◌, ◌<◌, ◌≡◌, ◌≢◌, inl, inr, refl, sym, ap, ◌∙◌, subst, Bool, true, false,
  not, ◌&&◌, ◌||◌, List, [], ◌∷◌, map, Bytes, arith, Bool-cases, same, same_iff, select, length,
  length-select-le, select-select, select-ext,
}
use skattr.Mailbox.Store.{
  Row, Table, is_for, is_expired, by_age, is_pending, to_stored, fetch, survives, delete_loop,
  delete, expire_sweep,
}
use skattr.Mailbox.Store.Rows.{Unique, Unique-select, select-all, Fresh}

-- The rows that a call of `delete` leaves.
unfoldable pub mentions : List Bytes → Row → Bool
mentions [] r = false
mentions (id ∷ ids) r = same r.deposit_id id || mentions ids r

abbrev pub remains : Bytes → List Bytes → Row → Bool
remains h ids r = not (mentions ids r && is_for h r)

pub delete_loop-table :
    (h : Bytes) (ids : List Bytes) (t : Table) (n : ℕ)
    → (delete_loop h ids t n).0 ≡ select (remains h ids) t
unfolding delete_loop mentions
delete_loop-table h [] t n = sym (select-all _ t (λ r m. refl))
delete_loop-table h (id ∷ ids) t n =
    delete_loop-table h ids (select (survives h id) t) _
    ∙ select-select (remains h ids) (survives h id) t
    ∙ select-ext _ (remains h (id ∷ ids)) t (λ r. ground arith)

delete_loop-count :
    (h : Bytes) (ids : List Bytes) (t : Table) (n : ℕ)
    → (delete_loop h ids t n).1 + length (delete_loop h ids t n).0 ≡ n + length t
unfolding delete_loop
delete_loop-count h [] t n = refl
delete_loop-count h (id ∷ ids) t n = omega (
  arith,
  delete_loop-count h ids (select (survives h id) t)
      (n + (length t - length (select (survives h id) t))),
  length-select-le (survives h id) t,
)

-- One id names one row at most.
length-survives-Fresh :
    (h id : Bytes) (t : Table) → Fresh id t → length (select (survives h id) t) ≡ length t
unfolding select
length-survives-Fresh h id [] f = refl
length-survives-Fresh h id (r ∷ t) (fr, f) = ground (arith, length-survives-Fresh h id t f)

Fresh-same : (x y : Bytes) (t : Table) → same x y ≡ true → Fresh x t → Fresh y t
Fresh-same x y t e = subst (λ z. Fresh z t) ((same_iff x y).0 e)

length-survives :
    (h id : Bytes) (t : Table) → Unique t → length t ≤ suc (length (select (survives h id) t))
unfolding select
length-survives h id [] u = omega arith
length-survives h id (r ∷ t) (f, u) = elim (Bool-cases (same r.deposit_id id)) [
  | inl e ↦ ground (arith, length-survives-Fresh h id t (Fresh-same r.deposit_id id t e f))
  | inr d ↦ ground (arith, length-survives h id t u)
]

delete_loop-le :
    (h : Bytes) (ids : List Bytes) (t : Table) (n : ℕ)
    → Unique t
    → (delete_loop h ids t n).1 ≤ n + length ids
unfolding delete_loop
delete_loop-le h [] t n u = omega arith
delete_loop-le h (id ∷ ids) t n u = omega (
  arith,
  delete_loop-le h ids (select (survives h id) t)
      (n + (length t - length (select (survives h id) t))) (Unique-select (survives h id) t u),
  length-survives h id t u,
)

-- `delete` removes the rows that have one of the ids and belong to the recipient, and no other; it
-- counts each row that went as deleted, and each further id as not found.
pub delete_exact :
    (t : Table) (h : Bytes) (ids : List Bytes)
    → Unique t
    → length ids < 2 ^ 32
    → ((delete t h ids).0 ≡ select (remains h ids) t)
      × ((delete t h ids).1 + length (delete t h ids).0 ≡ length t)
      × ((delete t h ids).1 + (delete t h ids).2 ≡ length ids)
unfolding delete
delete_exact t h ids u small = (
  delete_loop-table h ids t 0,
  omega (arith, delete_loop-count h ids t 0),
  omega (arith, delete_loop-le h ids t 0 u),
)

-- What another recipient can fetch does not change.
pub delete_scoped :
    (t : Table) (h other : Bytes) (ids : List Bytes) (now : ℕ)
    → h ≢ other
    → fetch (delete t h ids).0 other now ≡ fetch t other now
unfolding fetch delete
delete_scoped t h other ids now apart =
    ap (λ (s : Table). map to_stored (by_age s))
      (rw (delete_loop-table h ids t 0, select-select (is_pending other now) (remains h ids) t)
        (select-ext _ (is_pending other now) t
          λ r. ground (arith, same_iff r.recipient_hash h, same_iff r.recipient_hash other)))

-- The sweep counts the rows that it removes, each of which had run out, and no later fetch sees a
-- difference.
pub expire_sweep_lem :
    (t : Table) (h : Bytes) (now later : ℕ)
    → now ≤ later
    → ((expire_sweep t now).1 + length (expire_sweep t now).0 ≡ length t)
      × (fetch (expire_sweep t now).0 h later ≡ fetch t h later)
unfolding fetch expire_sweep
expire_sweep_lem t h now later le = (
  omega (arith, length-select-le (λ r. not (is_expired now r)) t),
  ap (λ (s : Table). map to_stored (by_age s))
      (select-select (is_pending h later) (λ r. not (is_expired now r)) t
        ∙ select-ext _ (is_pending h later) t (λ r. ground arith)),
)
