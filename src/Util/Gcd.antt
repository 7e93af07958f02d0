-- ===== src/Util/Gcd.antt =====
-- The loops end with the greatest common divisor.
use Prim.Native.Nat.{◌∣◌}
use native.Mathlib.Nat.{add-zero, zero-add, mod-lt, dvd-mod_iff, dvd-zero}
use mini_gateway.Common.{
  ℕ, zero, suc, ◌%◌, ◌<◌, ◌≡◌, ◌↔◌, List, [], ◌∷◌, some, All, Bool-cases, inl, inr, ◌==◌, ==_iff,
  refl, sym, ap, subst, ◌∙◌, arith,
}
use mini_gateway.Common.Int.{ℤ, pos, negsuc, rem, sub_ℕ}
use mini_gateway.Util.{abs, gcd_loop, gcd_two, gcd_next, gcd_from, gcd}

abs-sub_ℕ : (n : ℕ) → abs (sub_ℕ 0 n) ≡ n
abs-sub_ℕ n = ground arith

-- The remainder's size is the remainder of the sizes.
abs-rem : (a b : ℤ) → abs (rem a b) ≡ abs a % abs b
unfolding rem
abs-rem (pos n) b = add-zero (n % abs b) ∙ ap (λ m. m % abs b) (sym (add-zero n))
abs-rem (negsuc n) b = abs-sub_ℕ (suc n % abs b) ∙ ap (λ m. m % abs b) (sym (zero-add (suc n)))

-- The common divisors are the divisors of `g`.
abbrev pub IsGcd : ℕ → ℕ → ℕ → Type 0
IsGcd a b g = (k : ℕ) → (k ∣ g) ↔ ((k ∣ a) × (k ∣ b))

gcd_loop_lem :
    (fuel : ℕ) (a b : ℤ)
    → abs b < fuel
    → (r : ℤ) × (gcd_loop fuel a b ≡ some r) × IsGcd (abs a) (abs b) (abs r)
unfolding gcd_loop
gcd_loop_lem zero a b h = elim h [ ]
gcd_loop_lem (suc fuel) a b h = elim (Bool-cases (abs b == 0)) [
  | inl done ↦ (
    a,
    rw done refl,
    λ k.
        (let nought : abs b ≡ 0 = (==_iff (abs b) 0).0 done in
          (λ d. (d, rw nought (dvd-zero k)), λ d. d.0)),
  )
  | inr more ↦
      let positive : 0 < abs b = ground (arith, more) in
      let size : abs (rem a b) ≡ abs a % abs b = abs-rem a b in
      let smaller : abs (rem a b) < fuel = omega (arith, size, h, mod-lt (abs a) positive) in
      let (r, ends, divides) = gcd_loop_lem fuel b (rem a b) smaller in
      (
        r,
        rw more ends,
        λ k. (
          λ d.
              (let (in_b, in_rest) = (divides k).0 d in
                ((dvd-mod_iff k in_b).0 (subst (λ n. k ∣ n) size in_rest), in_b)),
          λ d. (divides k).1 (d.1, subst (λ n. k ∣ n) (sym size) ((dvd-mod_iff k d.1).1 d.0)),
        ),
      )
]

-- From a running result.
gcd_from_lem :
    (weights : List ℤ) (g : ℤ)
    → (r : ℤ) × (gcd_from (some g) weights ≡ some r)
      × ((k : ℕ) → (k ∣ abs r) ↔ ((k ∣ abs g) × All (λ w. k ∣ abs w) weights))
unfolding gcd_from gcd_next gcd_two
gcd_from_lem [] g = (g, refl, λ k. (λ d. (d, tt), λ d. d.0))
gcd_from_lem (w ∷ weights) g =
    let (g', ends, divides) = gcd_loop_lem (suc (abs w)) g w (omega arith) in
    let (r, rest, all) = gcd_from_lem weights g' in
    (
      r,
      rw ends rest,
      λ k. (
        λ d.
            (let (in_g', in_rest) = (all k).0 d in
              let (in_g, in_w) = (divides k).0 in_g' in (in_g, (in_w, in_rest))),
        λ d. (all k).1 ((divides k).1 (d.0, d.1.0), d.1.1),
      ),
    )

-- GCD ends on every list of integers, also on negative ones, and a number divides its result exactly when
-- it divides every one of the integers.
pub gcd_lem :
    (weights : List ℤ)
    → (r : ℤ) × (gcd weights ≡ some r) × ((k : ℕ) → (k ∣ abs r) ↔ All (λ w. k ∣ abs w) weights)
unfolding gcd
gcd_lem [] = (pos 0, refl, λ k. (λ d. tt, λ d. dvd-zero k))
gcd_lem (w ∷ weights) =
    let (r, ends, all) = gcd_from_lem weights w in
    (r, ends, λ k. (λ d. (let (a, b) = (all k).0 d in (a, b)), λ d. (all k).1 (d.0, d.1)))
