-- ===== src/Util/Tests.antt =====
-- Weights, with a negative one among them: the result is negative too.
use Prim.Native.Nat.{◌∣◌}
use mini_gateway.Common.{ℕ, ◌≡◌, ◌↔◌, [], ◌∷◌, List, some, All, refl}
use mini_gateway.Common.Int.{ℤ, pos, negsuc}
use mini_gateway.Util.{abs, gcd, max}
use mini_gateway.Util.Gcd.{gcd_lem}

abbrev weights : List ℤ
weights = pos 12 ∷ negsuc 17 ∷ pos 30 ∷ []

max_weight : max weights ≡ pos 30
unfolding max
max_weight = refl

gcd_weights : gcd weights ≡ some (negsuc 5)
unfolding gcd
gcd_weights = refl

gcd_lem_example :
    (r : ℤ) × (gcd weights ≡ some r) × ((k : ℕ) → (k ∣ abs r) ↔ All (λ w. k ∣ abs w) weights)
gcd_lem_example = gcd_lem weights
