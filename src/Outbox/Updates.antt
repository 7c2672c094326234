-- ===== src/Outbox/Updates.antt =====
-- `UPDATE … WHERE id = …` on a table whose rows are apart.
use skattr.Base.{
  ℕ, ◌≡◌, ◌≢◌, refl, sym, ap, ◌∙◌, subst, inl, inr, ◌⊎◌, false, List, [], ◌∷◌, length,
  if◌then◌else◌, All, All-Has, Has, arith, Bool-cases,
}
use skattr.Outbox.{Row, has_id, update_id}
use skattr.Outbox.Enqueue.{same_key, same_key_sym, AllApart}

-- Two rows of a valid table are one, or differ in key and in id.
pub AllApart-Has :
    (rows : List Row) (x y : Row)
    → AllApart rows
    → Has x rows
    → Has y rows
    → (x ≡ y) ⊎ ((same_key x y ≡ false) × (x.id ≢ y.id))
AllApart-Has [] x y u h k = absurd h
AllApart-Has (r ∷ rows) x y (a, u) (inl e) (inl f) = inl (e ∙ sym f)
AllApart-Has (r ∷ rows) x y (a, u) (inl e) (inr k) =
    inr (subst (λ z. (same_key z y ≡ false) × (z.id ≢ y.id)) (sym e) (All-Has _ y rows a k))
AllApart-Has (r ∷ rows) x y (a, u) (inr h) (inl f) =
    let (g, d) = All-Has _ x rows a h in
    inr (
      subst (λ z. (same_key x z ≡ false) × (x.id ≢ z.id)) (sym f)
        (same_key_sym x r ∙ g, λ e. d (sym e)))
AllApart-Has (r ∷ rows) x y (a, u) (inr h) (inr k) = AllApart-Has rows x y u h k

pub All-update_id :
    (P : Row → Type 0) (id : ℕ) (f : Row → Row) (rows : List Row)
    → ((x : Row) → Has x rows → x.id ≡ id → P (f x))
    → ((x : Row) → Has x rows → x.id ≢ id → P x)
    → All P (update_id id f rows)
unfolding update_id
All-update_id P id f [] changed kept = tt
All-update_id P id f (r ∷ rows) changed kept =
    let rest = All-update_id P id f rows (λ x m. changed x (inr m)) (λ x m. kept x (inr m)) in
    elim (Bool-cases (has_id id r)) [
      | inl e ↦ rw (e, if◌then◌else◌) (changed r (inl refl) (ground (arith, e)), rest)
      | inr e ↦ rw (e, if◌then◌else◌) (kept r (inl refl) (ground (arith, e)), rest)
    ]

-- An update of one row keeps the rows apart if the new row has a key that no other row has.
pub AllApart-update_id :
    (id : ℕ) (f : Row → Row) (rows : List Row)
    → ((x : Row) → (f x).id ≡ x.id)
    → ((x y : Row) → Has x rows → Has y rows → x.id ≡ id → y.id ≢ id → same_key (f x) y ≡ false)
    → AllApart rows
    → AllApart (update_id id f rows)
unfolding update_id
AllApart-update_id id f [] same_id new u = tt
AllApart-update_id id f (r ∷ rows) same_id new (a, u) =
    let rest = AllApart-update_id id f rows same_id (λ x y m k. new x y (inr m) (inr k)) u in
    elim (Bool-cases (has_id id r)) [
      | inl e ↦
          let is_id : r.id ≡ id = ground (arith, e) in
          rw (e, if◌then◌else◌)
            (
              All-update_id _ id f rows (λ x m i. absurd ((All-Has _ x rows a m).1 (is_id ∙ sym i)))
                  (λ x m d.
                    (new r x (inl refl) (inr m) is_id d, λ h. d (sym h ∙ same_id r ∙ is_id))),
              rest,
            )
      | inr e ↦
          let not_id : r.id ≢ id = ground (arith, e) in
          rw (e, if◌then◌else◌)
            (
              All-update_id _ id f rows
                  (λ x m i. (
                    same_key_sym r (f x) ∙ new x r (inr m) (inl refl) i not_id,
                    λ h. not_id (h ∙ same_id x ∙ i),
                  ))
                  (λ x m d. All-Has _ x rows a m),
              rest,
            )
    ]

pub Has-update_id :
    (id : ℕ) (f : Row → Row) (rows : List Row) (x : Row)
    → Has x rows
    → Has (if has_id id x then f x else x) (update_id id f rows)
unfolding update_id
Has-update_id id f [] x h = h
Has-update_id id f (r ∷ rows) x (inl e) = inl (ap (λ z. if has_id id z then f z else z) e)
Has-update_id id f (r ∷ rows) x (inr h) = inr (Has-update_id id f rows x h)

pub length-update_id :
    (id : ℕ) (f : Row → Row) (rows : List Row) → length (update_id id f rows) ≡ length rows
unfolding update_id
length-update_id id f [] = refl
length-update_id id f (r ∷ rows) = omega (arith, length-update_id id f rows)
