-- ===== src/Base/Sort.antt =====
-- `ORDER BY`: a stable sort by a number.
use Prim.Native.Nat.{ℕ, zero, suc, ◌≤◌}
use mathlib.Core.Path.{◌≡◌, refl, ap}
use mathlib.Core.Logic.{◌⊎◌, inl, inr}
use mathlib.Core.List.{List, [], ◌∷◌}
use native.Mathlib.Omega.{arith}
use skattr.Base.Tests.{leb, if◌then◌else◌, Bool-cases}
use skattr.Base.Lists.{All, length, take, drop}
use skattr.Base.Select.{Has, All-intro, All-Has}

module _ {A : Type 0} where
  pub Has-take : (n : ℕ) (a : A) (xs : List A) → Has a (take n xs) → Has a xs
  Has-take zero a xs h = absurd h
  Has-take (suc n) a [] h = h
  Has-take (suc n) a (x ∷ xs) (inl e) = inl e
  Has-take (suc n) a (x ∷ xs) (inr h) = inr (Has-take n a xs h)

  pub Has-drop : (n : ℕ) (a : A) (xs : List A) → Has a (drop n xs) → Has a xs
  Has-drop zero a xs h = h
  Has-drop (suc n) a [] h = h
  Has-drop (suc n) a (x ∷ xs) h = inr (Has-drop n a xs h)

  pub length-take_full : (n : ℕ) (a : A) (xs : List A) → Has a (drop n xs) → length (take n xs) ≡ n
  length-take_full zero a xs h = refl
  length-take_full (suc n) a [] h = absurd h
  length-take_full (suc n) a (x ∷ xs) h = omega (arith, length-take_full n a xs h)

  -- A row is in the prefix or in what is left.
  pub Has-take_or_drop :
      (n : ℕ) (a : A) (xs : List A) → Has a xs → Has a (take n xs) ⊎ Has a (drop n xs)
  Has-take_or_drop zero a xs h = inr h
  Has-take_or_drop (suc n) a [] h = inl h
  Has-take_or_drop (suc n) a (x ∷ xs) (inl e) = inl (inl e)
  Has-take_or_drop (suc n) a (x ∷ xs) (inr h) = elim (Has-take_or_drop n a xs h) [
    | inl k ↦ inl (inr k)
    | inr k ↦ inr k
  ]

module _ {A : Type 0} (key : A → ℕ) where
  unfoldable pub insert_by : A → List A → List A
  insert_by a [] = a ∷ []
  insert_by a (x ∷ xs) = if leb (key a) (key x) then a ∷ (x ∷ xs) else x ∷ insert_by a xs

  unfoldable pub sort_by : List A → List A
  sort_by [] = []
  sort_by (x ∷ xs) = insert_by x (sort_by xs)

  Has-insert_by : (r c : A) (t : List A) → Has r (c ∷ t) → Has r (insert_by c t)
  unfolding insert_by
  Has-insert_by r c [] h = h
  Has-insert_by r c (x ∷ t) h = elim (Bool-cases (leb (key c) (key x))) [
    | inl e ↦ rw (e, if◌then◌else◌) h
    | inr e ↦ rw (e, if◌then◌else◌) (ground (arith, Has-insert_by r c t))
  ]

  pub Has-sort_by : (r : A) (t : List A) → Has r t → Has r (sort_by t)
  unfolding sort_by
  Has-sort_by r [] h = h
  Has-sort_by r (c ∷ t) (inl e) = Has-insert_by r c (sort_by t) (inl e)
  Has-sort_by r (c ∷ t) (inr h) = Has-insert_by r c (sort_by t) (inr (Has-sort_by r t h))

  All-insert_by {κ} : (P : A → Type κ) (c : A) (t : List A) → P c → All P t → All P (insert_by c t)
  unfolding insert_by
  All-insert_by P c [] hc h = (hc, tt)
  All-insert_by P c (x ∷ t) hc (hx, h) = elim (Bool-cases (leb (key c) (key x))) [
    | inl e ↦ rw (e, if◌then◌else◌) (hc, (hx, h))
    | inr e ↦ rw (e, if◌then◌else◌) (hx, All-insert_by P c t hc h)
  ]

  pub All-sort_by {κ} : (P : A → Type κ) (t : List A) → All P t → All P (sort_by t)
  unfolding sort_by
  All-sort_by P [] h = tt
  All-sort_by P (c ∷ t) (hc, h) = All-insert_by P c (sort_by t) hc (All-sort_by P t h)

  pub Has-sort_by_inv : (r : A) (t : List A) → Has r (sort_by t) → Has r t
  Has-sort_by_inv r t h =
      All-Has (λ x. Has x t) r (sort_by t) (All-sort_by _ t (All-intro _ t (λ x m. m))) h

  -- The keys rise along the list.
  abbrev pub Sorted : List A → Type 0
  Sorted [] = Unit {0}
  Sorted (x ∷ xs) = All (λ y. key x ≤ key y) xs × Sorted xs

  Sorted-insert_by : (a : A) (t : List A) → Sorted t → Sorted (insert_by a t)
  unfolding insert_by
  Sorted-insert_by a [] s = (tt, tt)
  Sorted-insert_by a (x ∷ t) (low, s) = elim (Bool-cases (leb (key a) (key x))) [
    | inl e ↦
        let le : key a ≤ key x = ground (arith, e) in
        rw (e, if◌then◌else◌)
          ((le, All-intro _ t (λ y m. omega (arith, le, All-Has _ y t low m))), (low, s))
    | inr e ↦
        rw (e, if◌then◌else◌)
          (All-insert_by (λ y. key x ≤ key y) a t (ground (arith, e)) low, Sorted-insert_by a t s)
  ]

  pub sort_by-Sorted : (t : List A) → Sorted (sort_by t)
  unfolding sort_by
  sort_by-Sorted [] = tt
  sort_by-Sorted (x ∷ t) = Sorted-insert_by x (sort_by t) (sort_by-Sorted t)

  -- A prefix of a sorted list has the least keys.
  pub Sorted-take :
      (n : ℕ) (t : List A) (x y : A)
      → Sorted t
      → Has x (take n t)
      → Has y (drop n t)
      → key x ≤ key y
  Sorted-take zero t x y s h k = absurd h
  Sorted-take (suc n) [] x y s h k = absurd k
  Sorted-take (suc n) (a ∷ t) x y (low, s) (inl e) k =
      omega (arith, ap key e, All-Has (λ z. key a ≤ key z) y t low (Has-drop n y t k))
  Sorted-take (suc n) (a ∷ t) x y (low, s) (inr h) k = Sorted-take n t x y s h k
