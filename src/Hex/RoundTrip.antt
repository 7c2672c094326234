-- ===== src/Hex/RoundTrip.antt =====
-- What is displayed is parsed, in either case of the letters.
use skattr.Base.{
  ℕ, zero, suc, ◌+◌, ◌*◌, ◌/◌, ◌%◌, ◌<◌, ◌≡◌, refl, ap, ◌∙◌, subst, inl, inr, ◌&&◌, true, [], ◌∷◌,
  some, Bytes, IsByte, All, map, length, leb, ◌==◌, if◌then◌else◌, arith, Bool-cases, Option-cases,
}
use skattr.Hex.{
  non_hex, hex_digit, display, Result, ok, err, ◌>>=◌, from_hex_char, digit_at, parse_pairs,
  parse_fixed,
}

from_hex_char-hex_digit : (d : ℕ) → d < 16 → from_hex_char (hex_digit d) ≡ some d
unfolding from_hex_char hex_digit
from_hex_char-hex_digit d lt = ground (arith, lt)

byte_digits : (b : ℕ) → IsByte b → (b / 16 < 16) × (b % 16 < 16) × (b / 16 * 16 + b % 16 ≡ b)
byte_digits b lt = (omega (arith, lt), omega (arith, lt), omega (arith, lt))

parse_step :
    (i a b hi lo : ℕ) (rest bytes : Bytes)
    → from_hex_char a ≡ some hi
    → from_hex_char b ≡ some lo
    → parse_pairs (i + 2) rest ≡ ok bytes
    → parse_pairs i (a ∷ b ∷ rest) ≡ ok ((hi * 16 + lo) ∷ bytes)
unfolding parse_pairs
parse_step i a b hi lo rest bytes e f g = ground (arith, e, f, g)

parse_pairs-display :
    (bytes : Bytes) (i : ℕ) → All IsByte bytes → parse_pairs i (display bytes) ≡ ok bytes
unfolding parse_pairs display
parse_pairs-display [] i h = refl
parse_pairs-display (b ∷ bytes) i (hb, h) =
    let (high, low, whole) = byte_digits b hb in
    parse_step i (hex_digit (b / 16)) (hex_digit (b % 16)) (b / 16) (b % 16) (display bytes) bytes
      (from_hex_char-hex_digit (b / 16) high) (from_hex_char-hex_digit (b % 16) low)
      (parse_pairs-display bytes (i + 2) h)
    ∙ ap (λ x. ok (x ∷ bytes)) whole

length-display : (bytes : Bytes) → length (display bytes) ≡ length bytes * 2
unfolding display
length-display [] = refl
length-display (b ∷ bytes) = omega (arith, length-display bytes)

-- The bytes that are displayed are the bytes that are parsed.
pub parse_fixed-display :
    (bytes : Bytes) → All IsByte bytes → parse_fixed (length bytes) (display bytes) ≡ ok bytes
unfolding parse_fixed
parse_fixed-display bytes h =
    let fits : (length (display bytes) == length bytes * 2) ≡ true =
      ground (arith, length-display bytes) in
    rw (fits, if◌then◌else◌) (parse_pairs-display bytes 0 h)

-- `to_ascii_lowercase`
abbrev pub lowercase : ℕ → ℕ
lowercase c = if leb b'A' c && leb c b'Z' then c + 32 else c

hex_digit-from_hex_char :
    (c d : ℕ) → from_hex_char c ≡ some d → (d < 16) × (hex_digit d ≡ lowercase c)
unfolding from_hex_char hex_digit
hex_digit-from_hex_char c d e = ground (arith, e)

bind_elim {ℓ κ ι} :
    {A : Type ℓ} {B : Type κ} {C : Type ι} (m : Result A) (f : A → Result B) {b : B}
    → (m >>= f) ≡ ok b
    → ((a : A) → m ≡ ok a → f a ≡ ok b → C)
    → C
bind_elim (ok a) f h k = k a refl h
bind_elim (err e) f h k = absurd cc

digit_at_inv : (c i d : ℕ) → digit_at c i ≡ ok d → from_hex_char c ≡ some d
digit_at_inv c i d e = elim (Option-cases (from_hex_char c)) [
  | inl n ↦
      absurd (let h : ◌≡◌ {A = Result ℕ} (err (non_hex i)) (ok d) = rw (n, digit_at) at e in cc)
  | inr (x, k) ↦ k ∙ (let h : ◌≡◌ {A = Result ℕ} (ok x) (ok d) = rw (k, digit_at) at e in cc)
]

-- What the parsed bytes are, if the text has two characters for each.
abbrev Parsed : Bytes → Bytes → Type 0
Parsed s bytes =
    (length bytes * 2 ≡ length s) × All IsByte bytes × (display bytes ≡ map lowercase s)

parse_pairs-Parsed :
    (n i : ℕ) (s bytes : Bytes) → length s ≡ n * 2 → parse_pairs i s ≡ ok bytes → Parsed s bytes
unfolding parse_pairs display
parse_pairs-Parsed n i [] bytes l e =
    subst (Parsed []) (let k : ◌≡◌ {A = Bytes} [] bytes = cc in k) (refl, tt, refl)
parse_pairs-Parsed n i (a ∷ []) bytes l e = absurd (omega (arith, l))
parse_pairs-Parsed zero i (a ∷ b ∷ s) bytes l e = absurd (omega (arith, l))
parse_pairs-Parsed (suc n) i (a ∷ b ∷ s) bytes l e = bind_elim (digit_at a i) _ e (λ hi e₁ k₁.
    bind_elim (digit_at b (i + 1)) _ k₁ (λ lo e₂ k₂.
      bind_elim (parse_pairs (i + 2) s) _ k₂ (λ rest e₃ k₃.
        let (len, small, shown) = parse_pairs-Parsed n (i + 2) s rest (omega (arith, l)) e₃ in
        let (high, first) = hex_digit-from_hex_char a hi (digit_at_inv a i hi e₁) in
        let (low, second) = hex_digit-from_hex_char b lo (digit_at_inv b (i + 1) lo e₂) in
        let b' : ℕ = hi * 16 + lo in
        let high_digit : b' / 16 ≡ hi = omega (arith, low) in
        let low_digit : b' % 16 ≡ lo = omega (arith, low) in
        let whole : ◌≡◌ {A = Bytes} (b' ∷ rest) bytes = cc in
        subst (Parsed (a ∷ b ∷ s)) whole (
          omega (arith, len),
          (omega (arith, high, low), small),
          rw (high_digit, low_digit, first, second, shown) refl,
        ))))

-- A text that parses gives as many bytes as it should, and they are displayed as that text with its
-- letters in lower case.
pub display-parse_fixed :
    (n : ℕ) (s bytes : Bytes)
    → parse_fixed n s ≡ ok bytes
    → (length bytes ≡ n) × All IsByte bytes × (display bytes ≡ map lowercase s)
unfolding parse_fixed
display-parse_fixed n s bytes e = elim (Bool-cases (length s == n * 2)) [
  | inl t ↦
      let fits : length s ≡ n * 2 = ground (arith, t) in
      let (len, small, shown) = parse_pairs-Parsed n 0 s bytes fits (rw (t, if◌then◌else◌) at e) in
      (omega (arith, len, fits), small, shown)
  | inr f ↦ absurd (ground (arith, e, f))
]
