-- ===== src/Common/Int.antt =====
-- Go's `int`: the integers over the native numbers, wrapped to 64 bits where the code adds, and the
-- remainder of `%`, which takes the sign of the dividend.
use Prim.Native.Nat.{ℕ, suc, ◌+◌, ◌-◌, ◌%◌, ◌<◌}
use mathlib.Core.Path.{◌≡◌, refl}
use mathlib.Core.Bool.{Bool}
use native.Mathlib.Omega.{arith}
use mini_gateway.Common.Tests.{ltb, leb, if◌then◌else◌}

-- `negsuc n` is -(n + 1).
pub data ℤ : Type 0 where
  pos : ℕ → ℤ
  negsuc : ℕ → ℤ

abbrev pub pos_part : ℤ → ℕ
pos_part (pos n) = n
pos_part (negsuc n) = 0

abbrev pub neg_part : ℤ → ℕ
neg_part (pos n) = 0
neg_part (negsuc n) = suc n

-- a - b, as an integer.
abbrev pub sub_ℕ : ℕ → ℕ → ℤ
sub_ℕ a b = if leb b a then pos (a - b) else negsuc (b - a - 1)

infixl 65 ◌+ℤ◌
unfoldable pub ◌+ℤ◌ : ℤ → ℤ → ℤ
a +ℤ b = sub_ℕ (pos_part a + pos_part b) (neg_part a + neg_part b)

abbrev pub ltb_ℤ : ℤ → ℤ → Bool
ltb_ℤ a b = ltb (pos_part a + neg_part b) (pos_part b + neg_part a)

abbrev pub two_63 : ℕ
two_63 = 9223372036854775808

-- The bit pattern `n` of 64 bits, read as a signed number.
unfoldable pub signed : ℕ → ℤ
signed n = if ltb n two_63 then pos n else negsuc (18446744073709551616 - n - 1)

-- The value that a 64-bit register keeps of an integer.
unfoldable pub wrap : ℤ → ℤ
unfolding signed
wrap (pos n) = signed (n % 18446744073709551616)
wrap (negsuc n) = signed (18446744073709551615 - n % 18446744073709551616)

unfoldable pub add64 : ℤ → ℤ → ℤ
unfolding wrap ◌+ℤ◌
add64 a b = wrap (a +ℤ b)

-- `a % b` at a non-zero b.
unfoldable pub rem : ℤ → ℤ → ℤ
rem (pos n) b = pos (n % (pos_part b + neg_part b))
rem (negsuc n) b = sub_ℕ 0 (suc n % (pos_part b + neg_part b))

pub add64-pos : (a b : ℕ) → a + b < two_63 → add64 (pos a) (pos b) ≡ pos (a + b)
unfolding add64
add64-pos a b h = ground arith

pub add64-negsuc_zero : add64 (negsuc 0) (pos 1) ≡ pos 0
unfolding add64
add64-negsuc_zero = refl
