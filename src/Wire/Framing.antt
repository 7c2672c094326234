-- ===== src/Wire/Framing.antt =====
-- Whole, partial and oversized frames at the head of a buffer.
use mathlib.Core.List.{append_assoc}
use skattr.Base.{
  take-append-drop, All, IsByte, ℕ, ◌+◌, ◌-◌, ◌*◌, ◌/◌, ◌%◌, ◌^◌, ◌≤◌, ◌<◌, ◌≡◌, refl, ap, sym,
  subst, ◌⊎◌, inl, inr, ltb, ◌==◌, if◌then◌else◌, Bool-cases, ◌∙◌, List, [], ◌∷◌, ◌++◌, Bytes,
  length, length-append, take, drop, length-take, length-drop, arith,
}
use skattr.Wire.{
  max_frame_size, from_be, to_be, Head, incomplete, zero_length, too_large, whole, split,
  check_length, head, put_frame,
}

-- `from_be` undoes `to_be` on a u32.
pub head-to_be :
    (n : ℕ) (rest : Bytes) → n < 4294967296 → head (to_be n ++ rest) ≡ check_length n rest
unfolding head to_be from_be
head-to_be n rest h = ap (λ (k : ℕ). check_length k rest) same
  where
    same :
        n / 2 ^ 24 % 256 * 2 ^ 24 + n / 2 ^ 16 % 256 * 2 ^ 16 + n / 2 ^ 8 % 256 * 2 ^ 8 + n % 256
        ≡ n
    same = omega arith

module _ {ℓ} {A : Type ℓ} where
  pub take-append : (xs ys : List A) → take (length xs) (xs ++ ys) ≡ xs
  take-append [] ys = refl
  take-append (x ∷ xs) ys = ap (◌∷◌ x) (take-append xs ys)

  pub drop-append : (xs ys : List A) → drop (length xs) (xs ++ ys) ≡ ys
  drop-append [] ys = refl
  drop-append (x ∷ xs) ys = drop-append xs ys

split-whole :
    (t : ℕ) (payload rest : Bytes)
    → split (1 + length payload) (t ∷ (payload ++ rest)) ≡ whole t payload rest
unfolding split
split-whole t payload rest =
    rw (let e : 1 + length payload - 1 ≡ length payload = omega arith in e)
      (rw (take-append payload rest, drop-append payload rest))

check_length-whole :
    (t : ℕ) (payload rest : Bytes)
    → 1 + length payload ≤ max_frame_size
    → check_length (1 + length payload) (t ∷ (payload ++ rest)) ≡ whole t payload rest
unfolding check_length
check_length-whole t payload rest h =
    ground (arith, split-whole t payload rest, length-append payload rest)

-- A frame within the cap, written in front of any bytes, is read back and leaves those bytes.
pub head-put_frame :
    (t : ℕ) (payload rest : Bytes)
    → 1 + length payload ≤ max_frame_size
    → head (put_frame t payload ++ rest) ≡ whole t payload rest
unfolding put_frame
head-put_frame t payload rest h =
    rw (append_assoc (to_be (1 + length payload)) (t ∷ payload) rest) (
      head-to_be (1 + length payload) (t ∷ (payload ++ rest)) (omega arith)
      ∙ check_length-whole t payload rest h)

check_length_short :
    (n : ℕ) (rest : Bytes)
    → 0 < n
    → n ≤ max_frame_size
    → length rest < n
    → check_length n rest ≡ incomplete
unfolding check_length
check_length_short n rest pos h short = ground arith

-- Strictly fewer bytes than the frame has are never taken for a frame.
pub head_prefix :
    (t : ℕ) (payload front back : Bytes) (x : ℕ)
    → 1 + length payload ≤ max_frame_size
    → put_frame t payload ≡ front ++ (x ∷ back)
    → head front ≡ incomplete
unfolding put_frame head to_be
head_prefix t payload [] back x h e = refl
head_prefix t payload (a ∷ []) back x h e = refl
head_prefix t payload (a ∷ b ∷ []) back x h e = refl
head_prefix t payload (a ∷ b ∷ c ∷ []) back x h e = refl
head_prefix t payload (a ∷ b ∷ c ∷ d ∷ rest) back x h e =
    subst (λ bs. head (bs ++ rest) ≡ incomplete) (ap (take 4) e)
      (head-to_be (1 + length payload) rest (omega arith)
        ∙ check_length_short (1 + length payload) rest (omega arith) h short)
  where
    short : length rest < 1 + length payload
    short = omega (arith, ap (λ (bs : Bytes). length (drop 4 bs)) e, length-append rest (x ∷ back))

check_length_fits :
    (n : ℕ) (src : Bytes) (t : ℕ) (payload rest : Bytes)
    → check_length n src ≡ whole t payload rest
    → (length src ≡ 1 + length payload + length rest) × (1 + length payload ≤ max_frame_size)
unfolding check_length split
check_length_fits n [] t payload rest e = ground arith
check_length_fits n (b ∷ bs) t payload rest e =
    ground (arith, length-take (n - 1) bs, length-drop (n - 1) bs)

-- What a buffer shrinks by: the four bytes of the length field, and as many as that says.
pub head-whole :
    (src : Bytes) (t : ℕ) (payload rest : Bytes)
    → head src ≡ whole t payload rest
    → (length src ≡ 5 + length payload + length rest) × (1 + length payload ≤ max_frame_size)
unfolding head
head-whole [] t payload rest e = cc
head-whole (a ∷ []) t payload rest e = cc
head-whole (a ∷ b ∷ []) t payload rest e = cc
head-whole (a ∷ b ∷ c ∷ []) t payload rest e = cc
head-whole (a ∷ b ∷ c ∷ d ∷ src) t payload rest e =
    omega (arith, check_length_fits (from_be a b c d) src t payload rest e)

to_be-from_be :
    (a b c d : ℕ)
    → IsByte a
    → IsByte b
    → IsByte c
    → IsByte d
    → to_be (from_be a b c d) ≡ a ∷ b ∷ c ∷ d ∷ []
unfolding to_be from_be
to_be-from_be a b c d ha hb hc hd = ground (arith, top, third, second, last)
  where
    n : ℕ
    n = a * 2 ^ 24 + b * 2 ^ 16 + c * 2 ^ 8 + d

    top : n / 2 ^ 24 % 256 ≡ a
    top = omega arith

    third : n / 2 ^ 16 % 256 ≡ b
    third = omega arith

    second : n / 2 ^ 8 % 256 ≡ c
    second = omega arith

    last : n % 256 ≡ d
    last = omega arith

check_length-whole_inv :
    (n : ℕ) (src : Bytes) (t : ℕ) (payload rest : Bytes)
    → check_length n src ≡ whole t payload rest
    → (n ≡ 1 + length payload) × (src ≡ t ∷ (payload ++ rest))
unfolding check_length split
check_length-whole_inv n [] t payload rest e = ground arith
check_length-whole_inv n (b ∷ bs) t payload rest e =
    ground (arith, length-take (n - 1) bs, take-append-drop (n - 1) bs)

-- A buffer of bytes that holds a whole frame is that frame, as it is written, and the rest.
pub put_frame-head :
    (src : Bytes) (t : ℕ) (payload rest : Bytes)
    → All IsByte src
    → head src ≡ whole t payload rest
    → src ≡ put_frame t payload ++ rest
unfolding head put_frame
put_frame-head [] t payload rest h e = cc
put_frame-head (a ∷ []) t payload rest h e = cc
put_frame-head (a ∷ b ∷ []) t payload rest h e = cc
put_frame-head (a ∷ b ∷ c ∷ []) t payload rest h e = cc
put_frame-head (a ∷ b ∷ c ∷ d ∷ src) t payload rest (ha, (hb, (hc, (hd, _)))) e =
    let (n, s) = check_length-whole_inv (from_be a b c d) src t payload rest e in
    rw (← n, to_be-from_be a b c d ha hb hc hd, s)

-- The buffer starts with a length field, of which and of what follows it `P` holds.
abbrev pub Field : Bytes → (ℕ → Bytes → Type 0) → Type 0
Field src P =
    (a : ℕ) × (b : ℕ) × (c : ℕ) × (d : ℕ) × (rest : Bytes) × (src ≡ a ∷ b ∷ c ∷ d ∷ rest)
    × P (from_be a b c d) rest

-- What each head says of the length field and of what follows it.
abbrev pub IsHead : Head → ℕ → Bytes → Type 0
IsHead incomplete n rest = (0 < n) × (n ≤ max_frame_size) × (length rest < n)
IsHead zero_length n rest = n ≡ 0
IsHead (too_large m) n rest = (m ≡ n) × (max_frame_size < n)
IsHead (whole t payload left) n rest =
    (n ≡ 1 + length payload) × (rest ≡ t ∷ (payload ++ left)) × (n ≤ max_frame_size)

split-IsHead :
    (n : ℕ) (rest : Bytes)
    → 0 < n
    → n ≤ max_frame_size
    → n ≤ length rest
    → IsHead (split n rest) n rest
unfolding split
split-IsHead n [] pos fits long = absurd (omega (arith, pos, long))
split-IsHead n (t ∷ rest) pos fits long = (
  omega (arith, pos, long, length-take (n - 1) rest),
  ap (◌∷◌ t) (sym (take-append-drop (n - 1) rest)),
  fits,
)

check_length-IsHead : (n : ℕ) (rest : Bytes) → IsHead (check_length n rest) n rest
unfolding check_length
check_length-IsHead n rest = elim (Bool-cases (n == 0)) [
  | inl z ↦ rw (z, if◌then◌else◌) (ground (arith, z))
  | inr nz ↦ elim (Bool-cases (ltb max_frame_size n)) [
    | inl large ↦ rw (nz, large, if◌then◌else◌) (refl, ground (arith, large))
    | inr fits ↦ elim (Bool-cases (ltb (length rest) n)) [
      | inl short ↦
          rw (nz, fits, short, if◌then◌else◌)
            (ground (arith, nz), ground (arith, fits), ground (arith, short))
      | inr long ↦
          rw (nz, fits, long, if◌then◌else◌)
            (split-IsHead n rest (ground (arith, nz)) (ground (arith, fits)) (ground (arith, long)))
    ]
  ]
]

-- A buffer without four bytes has no length field.
pub head-Field :
    (src : Bytes) → ((length src < 4) × (head src ≡ incomplete)) ⊎ Field src (IsHead (head src))
unfolding head
head-Field [] = inl (omega arith, refl)
head-Field (a ∷ []) = inl (omega arith, refl)
head-Field (a ∷ b ∷ []) = inl (omega arith, refl)
head-Field (a ∷ b ∷ c ∷ []) = inl (omega arith, refl)
head-Field (a ∷ b ∷ c ∷ d ∷ rest) =
    inr (a, b, c, d, rest, refl, check_length-IsHead (from_be a b c d) rest)
