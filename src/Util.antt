-- ===== src/Util.antt =====
-- pkg/util/math.go, on Go's int: the remainder takes the sign of the dividend. The loop of GCDTwo takes fuel, of
-- which the size of its second argument and one more is enough.
pub mod Gcd
mod Tests
use mini_gateway.Common.{
  ℕ, zero, suc, ◌+◌, Bool, List, [], ◌∷◌, Option, none, some, ◌==◌, if◌then◌else◌,
}
use mini_gateway.Common.Int.{ℤ, pos, negsuc, pos_part, neg_part, rem, ltb_ℤ}

-- The size of an integer.
abbrev pub abs : ℤ → ℕ
abs z = pos_part z + neg_part z

max_from : ℤ → List ℤ → ℤ
max_from m [] = m
max_from m (w ∷ weights) = max_from (if ltb_ℤ m w then w else m) weights

unfoldable pub max : List ℤ → ℤ
unfolding max_from
max [] = pos 0
max (w ∷ weights) = max_from w weights

-- `for b != 0 { a, b = b, a % b }`; `none` means that the fuel ran out.
unfoldable pub gcd_loop : ℕ → ℤ → ℤ → Option ℤ
gcd_loop zero a b = none
gcd_loop (suc fuel) a b =
    let rest = gcd_loop fuel b (rem a b) in if abs b == 0 then some a else rest

unfoldable pub gcd_two : ℤ → ℤ → Option ℤ
unfolding gcd_loop rem
gcd_two a b = gcd_loop (suc (abs b)) a b

abbrev gcd_next : Option ℤ → ℤ → Option ℤ
unfolding gcd_two
gcd_next none w = none
gcd_next (some result) w = gcd_two result w

gcd_from : Option ℤ → List ℤ → Option ℤ
unfolding gcd_next
gcd_from result [] = result
gcd_from result (w ∷ weights) = gcd_from (gcd_next result w) weights

unfoldable pub gcd : List ℤ → Option ℤ
unfolding gcd_from
gcd [] = some (pos 0)
gcd (w ∷ weights) = gcd_from (some w) weights
