-- ===== src/Hex.antt =====
-- crates/core/src/daemon/hex.rs: byte arrays as text. A text is the list of its UTF-8 bytes;
-- `Hex16` and `Hex32` are the byte arrays of 16 and 32 bytes.
pub mod RoundTrip
mod Tests
use skattr.Base.{
  ℕ, zero, suc, ◌+◌, ◌-◌, ◌*◌, ◌/◌, ◌%◌, Bool, ◌&&◌, List, [], ◌∷◌, Option, none, some, Bytes,
  length, ltb, leb, ◌==◌, if◌then◌else◌,
}

-- One digit of `{byte:02x}`.
unfoldable pub hex_digit : ℕ → ℕ
hex_digit d = if ltb d 10 then b'0' + d else b'a' + (d - 10)

-- `Display::fmt`
unfoldable pub display : Bytes → Bytes
unfolding hex_digit
display [] = []
display (byte ∷ bytes) = hex_digit (byte / 16) ∷ hex_digit (byte % 16) ∷ display bytes

pub data HexParseError : Type 0 where
  length_error : (expected got : ℕ) → HexParseError
  non_hex : (index : ℕ) → HexParseError

pub data Result {ℓ} (A : Type ℓ) : Type ℓ where
  ok : A → Result A
  err : HexParseError → Result A

infixl 5 ◌>>=◌
abbrev pub ◌>>=◌ {ℓ κ} : {A : Type ℓ} {B : Type κ} → Result A → (A → Result B) → Result B
err e >>= next = err e
ok a >>= next = next a

unfoldable pub from_hex_char : ℕ → Option ℕ
from_hex_char c =
    if leb b'0' c && leb c b'9'
    then some (c - b'0')
    else if leb b'a' c && leb c b'f'
    then some (c - b'a' + 10)
    else if leb b'A' c && leb c b'F'
    then some (c - b'A' + 10)
    else none

abbrev pub digit_at : ℕ → ℕ → Result ℕ
digit_at c index = elim (from_hex_char c) [ none ↦ err (non_hex index) | some d ↦ ok d ]

-- The loop over `chunks_exact(2)`; `i` is the offset of the chunk. Both digits are below 16, so
-- `(hi << 4) | lo` is their sum.
unfoldable pub parse_pairs : ℕ → Bytes → Result Bytes
unfolding from_hex_char
parse_pairs i (a ∷ b ∷ rest) = do
  hi ← digit_at a i
  lo ← digit_at b (i + 1)
  bytes ← parse_pairs (i + 2) rest
  ok ((hi * 16 + lo) ∷ bytes)
parse_pairs i _ = ok []

unfoldable pub parse_fixed : ℕ → Bytes → Result Bytes
unfolding parse_pairs
parse_fixed n s =
    if length s == n * 2 then parse_pairs 0 s else err (length_error (n * 2) (length s))
