-- ===== src/Base/Order.antt =====
-- `ORDER BY` over several columns: a stable sort by a Boolean comparison.
use mathlib.Core.Path.{◌≡◌, refl, sym, ◌∙◌}
use mathlib.Core.Logic.{inl, inr}
use mathlib.Core.Bool.{Bool, true, false}
use mathlib.Core.List.{List, [], ◌∷◌}
use native.Mathlib.Omega.{arith}
use skattr.Base.Tests.{if◌then◌else◌, Bool-cases}
use skattr.Base.Lists.{All}
use skattr.Base.Select.{Has, All-intro, All-Has, All-map, All-select, select}

module _ {A : Type 0} (before : A → A → Bool) where
  unfoldable pub insert_before : A → List A → List A
  insert_before a [] = a ∷ []
  insert_before a (x ∷ xs) = if before a x then a ∷ (x ∷ xs) else x ∷ insert_before a xs

  unfoldable pub order_by : List A → List A
  order_by [] = []
  order_by (x ∷ xs) = insert_before x (order_by xs)

  -- Each comes before all that follow it.
  abbrev pub Ordered : List A → Type 0
  Ordered [] = Unit {0}
  Ordered (x ∷ xs) = All (λ y. before x y ≡ true) xs × Ordered xs

  -- A list that has the order is left as it is.
  pub order_by-Ordered : (xs : List A) → Ordered xs → order_by xs ≡ xs
  unfolding order_by insert_before
  order_by-Ordered [] s = refl
  order_by-Ordered (x ∷ []) s = refl
  order_by-Ordered (x ∷ y ∷ xs) (all, s) = rw (order_by-Ordered (y ∷ xs) s, all.0, if◌then◌else◌)

  All-insert_before {κ} :
      (P : A → Type κ) (c : A) (t : List A) → P c → All P t → All P (insert_before c t)
  unfolding insert_before
  All-insert_before P c [] hc h = (hc, tt)
  All-insert_before P c (x ∷ t) hc (hx, h) = elim (Bool-cases (before c x)) [
    | inl e ↦ rw (e, if◌then◌else◌) (hc, (hx, h))
    | inr e ↦ rw (e, if◌then◌else◌) (hx, All-insert_before P c t hc h)
  ]

  pub All-order_by {κ} : (P : A → Type κ) (t : List A) → All P t → All P (order_by t)
  unfolding order_by
  All-order_by P [] h = tt
  All-order_by P (c ∷ t) (hc, h) = All-insert_before P c (order_by t) hc (All-order_by P t h)

  Has-insert_before : (r c : A) (t : List A) → Has r (c ∷ t) → Has r (insert_before c t)
  unfolding insert_before
  Has-insert_before r c [] h = h
  Has-insert_before r c (x ∷ t) h = elim (Bool-cases (before c x)) [
    | inl e ↦ rw (e, if◌then◌else◌) h
    | inr e ↦ rw (e, if◌then◌else◌) (ground (arith, Has-insert_before r c t))
  ]

  pub Has-order_by : (r : A) (t : List A) → Has r t → Has r (order_by t)
  unfolding order_by
  Has-order_by r [] h = h
  Has-order_by r (c ∷ t) (inl e) = Has-insert_before r c (order_by t) (inl e)
  Has-order_by r (c ∷ t) (inr h) = Has-insert_before r c (order_by t) (inr (Has-order_by r t h))

  pub Has-order_by_inv : (r : A) (t : List A) → Has r (order_by t) → Has r t
  Has-order_by_inv r t h =
      All-Has (λ x. Has x t) r (order_by t) (All-order_by _ t (All-intro _ t (λ x m. m))) h

  module _ (trans : (a b c : A) → before a b ≡ true → before b c ≡ true → before a c ≡ true)
      (total : (a b : A) → before a b ≡ false → before b a ≡ true) where
    Ordered-insert_before : (a : A) (t : List A) → Ordered t → Ordered (insert_before a t)
    unfolding insert_before
    Ordered-insert_before a [] s = (tt, tt)
    Ordered-insert_before a (x ∷ t) (low, s) = elim (Bool-cases (before a x)) [
      | inl e ↦
          rw (e, if◌then◌else◌)
            ((e, All-intro _ t (λ y m. trans a x y e (All-Has _ y t low m))), (low, s))
      | inr e ↦
          rw (e, if◌then◌else◌)
            (
              All-insert_before (λ y. before x y ≡ true) a t (total a x e) low,
              Ordered-insert_before a t s,
            )
    ]

    pub Ordered-order_by : (t : List A) → Ordered (order_by t)
    unfolding order_by
    Ordered-order_by [] = tt
    Ordered-order_by (x ∷ t) = Ordered-insert_before x (order_by t) (Ordered-order_by t)

    -- The sort is stable: it commutes with a selection.
    insert_before-low :
        (a : A) (xs : List A) → All (λ y. before a y ≡ true) xs → insert_before a xs ≡ a ∷ xs
    unfolding insert_before
    insert_before-low a [] h = refl
    insert_before-low a (x ∷ xs) (e, h) = rw e refl

    select-insert_before :
        (p : A → Bool) (a : A) (xs : List A)
        → Ordered xs
        → select p (insert_before a xs)
          ≡ (if p a then insert_before a (select p xs) else select p xs)
    unfolding insert_before select
    select-insert_before p a [] s = refl
    select-insert_before p a (x ∷ xs) (low, s) = elim (Bool-cases (before a x)) [
      | inl e ↦ elim (Bool-cases (p a)) [
        | inl pa ↦
            rw (e, pa, if◌then◌else◌)
              (sym (
                insert_before-low a _
                  (All-select _ p (x ∷ xs) (e, All-map _ _ xs (λ y l. trans a x y e l) low))))
        | inr pa ↦ rw (e, pa, if◌then◌else◌) refl
      ]
      | inr e ↦ ground (arith, e, select-insert_before p a xs s)
    ]

    pub select-order_by :
        (p : A → Bool) (xs : List A) → select p (order_by xs) ≡ order_by (select p xs)
    unfolding order_by select
    select-order_by p [] = refl
    select-order_by p (x ∷ xs) =
        select-insert_before p x (order_by xs) (Ordered-order_by xs)
        ∙ ground (arith, select-order_by p xs)
