-- ===== src/Wire.antt =====
-- The framing that crates/core/src/transport/frame.rs and crates/mailbox/src/codec.rs share:
-- a length (u32, big endian) over type byte and payload, then the type byte, then the payload.
pub mod Framing
use Prim.Native.Nat.{◌^◌}
use skattr.Base.{
  ◌≡◌, Option, none, some, ℕ, suc, ◌+◌, ◌-◌, ◌*◌, ◌/◌, ◌%◌, List, [], ◌∷◌, ◌++◌, Bytes, length,
  take, drop, ltb, ◌==◌, if◌then◌else◌,
}

-- Hard cap on the length field, 16 MiB.
abbrev pub max_frame_size : ℕ
max_frame_size = 16 * 1024 * 1024

-- `u32::from_be_bytes`
unfoldable pub from_be : ℕ → ℕ → ℕ → ℕ → ℕ
from_be a b c d = a * 2 ^ 24 + b * 2 ^ 16 + c * 2 ^ 8 + d

-- `u32::to_be_bytes`
unfoldable pub to_be : ℕ → Bytes
to_be n = n / 2 ^ 24 % 256 ∷ n / 2 ^ 16 % 256 ∷ n / 2 ^ 8 % 256 ∷ n % 256 ∷ []

-- What the head of the buffer holds. Only `whole` has consumed anything: it carries the type byte,
-- the payload and the bytes that stay in the buffer.
pub data Head : Type 0 where
  incomplete : Head
  zero_length : Head
  too_large : ℕ → Head
  whole : ℕ → Bytes → Bytes → Head

-- `split_to(4)`, the type byte, and `split_to(length - 1)`; `rest` follows the length field and
-- has `len` bytes at least.
unfoldable pub split : ℕ → Bytes → Head
split len [] = incomplete
split len (type_byte ∷ rest) = whole type_byte (take (len - 1) rest) (drop (len - 1) rest)

-- The tests on the length field, in the order of the code.
unfoldable pub check_length : ℕ → Bytes → Head
unfolding split
check_length len rest =
    if len == 0
    then zero_length
    else if ltb max_frame_size len
    then too_large len
    else if ltb (length rest) len
    then incomplete
    else split len rest

unfoldable pub head : Bytes → Head
unfolding check_length
head (a ∷ b ∷ c ∷ d ∷ rest) = check_length (from_be a b c d) rest
head _ = incomplete

-- What an encoder appends: length, type byte, payload.
unfoldable pub put_frame : ℕ → Bytes → Bytes
put_frame type_byte payload = to_be (1 + length payload) ++ (type_byte ∷ payload)

-- `ciborium::into_writer` and `ciborium::from_reader` at one type; `none` is their error. A value
-- that was written is read back.
pub record Serde {ℓ} (A : Type ℓ) : Type ℓ where
  pub into_writer : A → Option Bytes
  pub from_reader : Bytes → Option A
  pub reads_back : (a : A) (bytes : Bytes) → into_writer a ≡ some bytes → from_reader bytes ≡ some a
