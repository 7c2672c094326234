-- ===== src/Base/Int.antt =====
-- Signed numbers, and the saturating operations of an i64 on them.
use Prim.Native.Nat.{ℕ, suc, ◌+◌, ◌-◌, ◌^◌, min}
use skattr.Base.Tests.{leb, if◌then◌else◌}

-- `negsuc n` is -(n + 1).
pub data ℤ : Type 0 where
  pos : ℕ → ℤ
  negsuc : ℕ → ℤ

abbrev pub pos_part : ℤ → ℕ
pos_part (pos n) = n
pos_part (negsuc n) = 0

abbrev pub neg_part : ℤ → ℕ
neg_part (pos n) = 0
neg_part (negsuc n) = suc n

-- a - b, as an integer.
abbrev pub sub_ℕ : ℕ → ℕ → ℤ
sub_ℕ a b = if leb b a then pos (a - b) else negsuc (b - a - 1)

-- The nearest i64.
abbrev pub clamp : ℤ → ℤ
clamp (pos n) = pos (min n (2 ^ 63 - 1))
clamp (negsuc n) = negsuc (min n (2 ^ 63 - 1))

abbrev pub saturating_sub : ℤ → ℤ → ℤ
saturating_sub a b = clamp (sub_ℕ (pos_part a + neg_part b) (pos_part b + neg_part a))

abbrev pub saturating_abs : ℤ → ℕ
saturating_abs (pos n) = n
saturating_abs (negsuc n) = min (suc n) (2 ^ 63 - 1)
