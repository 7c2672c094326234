-- ===== src/Base/Select.antt =====
-- Equality of byte strings as a test, and selection from a list by a Boolean test.
use Prim.Native.Nat.{ℕ, ◌≤◌}
use mathlib.Core.Path.{◌≡◌, refl, sym, ap, subst}
use mathlib.Core.Logic.{◌↔◌, ◌⊎◌, inl, inr}
use mathlib.Core.Bool.{Bool, true, false, ◌&&◌}
use mathlib.Core.List.{List, [], ◌∷◌, ◌++◌}
use native.Mathlib.Omega.{arith}
use skattr.Base.Tests.{◌==◌, if◌then◌else◌, Bool-cases}
use skattr.Base.Lists.{length, All}

-- `==` on arrays and slices of bytes.
unfoldable pub same : List ℕ → List ℕ → Bool
same [] [] = true
same [] (y ∷ ys) = false
same (x ∷ xs) [] = false
same (x ∷ xs) (y ∷ ys) = x == y && same xs ys

pub same_iff : (xs ys : List ℕ) → (same xs ys ≡ true) ↔ (xs ≡ ys)
unfolding same
same_iff [] [] = (λ h. refl, λ h. refl)
same_iff [] (y ∷ ys) = (λ h. cc, λ h. cc)
same_iff (x ∷ xs) [] = (λ h. cc, λ h. cc)
same_iff (x ∷ xs) (y ∷ ys) =
    (λ h. ground (arith, same_iff xs ys), λ h. ground (arith, same_iff xs ys))

pub same_refl : (xs : List ℕ) → same xs xs ≡ true
same_refl xs = (same_iff xs xs).1 refl

pub same_sym : (xs ys : List ℕ) → same xs ys ≡ same ys xs
same_sym xs ys = ground (arith, same_iff xs ys, same_iff ys xs)

module _ {ℓ} {A : Type ℓ} where
  -- The rows that a `WHERE` clause selects, in their order.
  unfoldable pub select : (A → Bool) → List A → List A
  select p [] = []
  select p (x ∷ xs) = if p x then x ∷ select p xs else select p xs

  pub length-select-le : (p : A → Bool) (xs : List A) → length (select p xs) ≤ length xs
  unfolding select
  length-select-le p [] = omega arith
  length-select-le p (x ∷ xs) = ground (arith, length-select-le p xs)

  pub select-append :
      (p : A → Bool) (xs ys : List A) → select p (xs ++ ys) ≡ select p xs ++ select p ys
  unfolding select
  select-append p [] ys = refl
  select-append p (x ∷ xs) ys = ground (arith, select-append p xs ys)

  pub All-select {κ} :
      (P : A → Type κ) (p : A → Bool) (xs : List A) → All P xs → All P (select p xs)
  unfolding select
  All-select P p [] h = tt
  All-select P p (x ∷ xs) (hx, hs) = elim (Bool-cases (p x)) [
    | inl e ↦ rw (e, if◌then◌else◌) (hx, All-select P p xs hs)
    | inr e ↦ rw (e, if◌then◌else◌) (All-select P p xs hs)
  ]

module _ {ℓ} {A : Type ℓ} where
  pub All-map {κ μ} :
      (P : A → Type κ) (Q : A → Type μ) (xs : List A) → ((x : A) → P x → Q x) → All P xs → All Q xs
  All-map P Q [] f h = tt
  All-map P Q (x ∷ xs) f (hx, h) = (f x hx, All-map P Q xs f h)

  pub select-select :
      (p q : A → Bool) (xs : List A) → select p (select q xs) ≡ select (λ x. q x && p x) xs
  unfolding select
  select-select p q [] = refl
  select-select p q (x ∷ xs) = ground (arith, select-select p q xs)

  pub select-ext :
      (p q : A → Bool) (xs : List A) → ((x : A) → p x ≡ q x) → select p xs ≡ select q xs
  unfolding select
  select-ext p q [] h = refl
  select-ext p q (x ∷ xs) h = rw (h x, select-ext p q xs h)

  pub select-all : (p : A → Bool) (xs : List A) → All (λ x. p x ≡ true) xs → select p xs ≡ xs
  unfolding select
  select-all p [] h = refl
  select-all p (x ∷ xs) (e, h) = rw (e, if◌then◌else◌) (ap (λ t. x ∷ t) (select-all p xs h))

  pub none_selected :
      (p : A → Bool) (xs : List A) → length (select p xs) ≡ 0 → All (λ x. p x ≡ false) xs
  unfolding select
  none_selected p [] e = tt
  none_selected p (x ∷ xs) e = elim (Bool-cases (p x)) [
    | inl t ↦ absurd (ground (arith, t))
    | inr f ↦ (f, none_selected p xs (ground (arith, f)))
  ]

  pub select_none : (p : A → Bool) (xs : List A) → All (λ x. p x ≡ false) xs → select p xs ≡ []
  unfolding select
  select_none p [] h = refl
  select_none p (x ∷ xs) (e, h) = ground (arith, e, select_none p xs h)

module _ {A : Type 0} where
  -- Membership as data.
  abbrev pub Has : A → List A → Type 0
  Has a [] = ⊥
  Has a (x ∷ xs) = (a ≡ x) ⊎ Has a xs

  pub Has-append_left : (a : A) (xs ys : List A) → Has a xs → Has a (xs ++ ys)
  Has-append_left a [] ys h = absurd h
  Has-append_left a (x ∷ xs) ys (inl e) = inl e
  Has-append_left a (x ∷ xs) ys (inr h) = inr (Has-append_left a xs ys h)

  pub Has-append_right : (a : A) (xs ys : List A) → Has a ys → Has a (xs ++ ys)
  Has-append_right a [] ys h = h
  Has-append_right a (x ∷ xs) ys h = inr (Has-append_right a xs ys h)

  pub Has-select :
      (p : A → Bool) (a : A) (xs : List A) → p a ≡ true → Has a xs → Has a (select p xs)
  unfolding select
  Has-select p a [] t h = absurd h
  Has-select p a (x ∷ xs) t (inl e) =
      rw (let f : p x ≡ true = rw (← e) t in f, if◌then◌else◌) (inl e)
  Has-select p a (x ∷ xs) t (inr h) = elim (Bool-cases (p x)) [
    | inl e ↦ rw (e, if◌then◌else◌) (inr (Has-select p a xs t h))
    | inr e ↦ rw (e, if◌then◌else◌) (Has-select p a xs t h)
  ]

  pub Has-select_inv :
      (p : A → Bool) (a : A) (xs : List A) → Has a (select p xs) → (p a ≡ true) × Has a xs
  unfolding select
  Has-select_inv p a [] h = absurd h
  Has-select_inv p a (x ∷ xs) h = elim (Bool-cases (p x)) [
    | inl e ↦ ground (arith, Has-select_inv p a xs)
    | inr e ↦ ground (arith, Has-select_inv p a xs)
  ]

  pub All-intro {κ} : (P : A → Type κ) (xs : List A) → ((a : A) → Has a xs → P a) → All P xs
  All-intro P [] h = tt
  All-intro P (x ∷ xs) h = (h x (inl refl), All-intro P xs (λ a m. h a (inr m)))

  pub All-Has {κ} : (P : A → Type κ) (a : A) (xs : List A) → All P xs → Has a xs → P a
  All-Has P a [] h m = absurd m
  All-Has P a (x ∷ xs) (hx, h) (inl e) = subst P (sym e) hx
  All-Has P a (x ∷ xs) (hx, h) (inr m) = All-Has P a xs h m
