-- ===== src/Proxy/Director/Paths.antt =====
-- How the reverse proxy joins two paths.
use mini_gateway.Common.{
  ◌≡◌, refl, sym, ap, ◌∙◌, arith, true, false, [], ◌∷◌, ◌++◌, append_assoc, ◌==◌, if◌then◌else◌,
  Bool-cases, inl, inr,
}
use mini_gateway.Proxy.Director.{
  Text, has_suffix_slash, has_prefix_slash, rest_of, single_joining_slash,
}

-- A text without a slash at its end, and without one at its start, if there is one.
abbrev pub without_last : Text → Text
without_last [] = []
without_last (x ∷ []) = if x == b'/' then [] else x ∷ []
without_last (x ∷ y ∷ s) = x ∷ without_last (y ∷ s)

abbrev pub without_first : Text → Text
without_first [] = []
without_first (x ∷ s) = if x == b'/' then s else x ∷ s

suffix_lem :
    (a : Text)
    → (has_suffix_slash a ≡ true → a ≡ without_last a ++ b'/' ∷ [])
      × (has_suffix_slash a ≡ false → without_last a ≡ a)
unfolding has_suffix_slash
suffix_lem [] = (λ e. ground (arith, e), λ e. refl)
suffix_lem (x ∷ []) = (λ e. ground (arith, e), λ e. ground (arith, e))
suffix_lem (x ∷ y ∷ s) =
    let (with_slash, without) = suffix_lem (y ∷ s) in
    (λ e. ap (λ t. x ∷ t) (with_slash e), λ e. ap (λ t. x ∷ t) (without e))

prefix_lem :
    (b : Text)
    → (has_prefix_slash b ≡ true → (without_first b ≡ rest_of b) × (b ≡ b'/' ∷ rest_of b))
      × (has_prefix_slash b ≡ false → without_first b ≡ b)
unfolding has_prefix_slash
prefix_lem [] = (λ e. ground (arith, e), λ e. refl)
prefix_lem (x ∷ s) = (λ e. (ground (arith, e), ground (arith, e)), λ e. ground (arith, e))

-- Two paths are joined by one slash, whatever they end and begin with: the first one without a slash at
-- its end, a slash, and the second one without a slash at its start.
pub single_joining_slash_lem :
    (a b : Text) → single_joining_slash a b ≡ without_last a ++ b'/' ∷ without_first b
unfolding single_joining_slash
single_joining_slash_lem a b = elim (Bool-cases (has_suffix_slash a)) [
  | inl ends ↦ elim (Bool-cases (has_prefix_slash b)) [
    | inl begins ↦
        (let (same, _) = (prefix_lem b).0 begins in
          rw (ends, begins)
            (ap (λ t. t ++ rest_of b) ((suffix_lem a).0 ends)
              ∙ append_assoc (without_last a) (b'/' ∷ []) (rest_of b)
              ∙ ap (λ t. without_last a ++ b'/' ∷ t) (sym same)))
    | inr other ↦
        rw (ends, other)
          (ap (λ t. t ++ b) ((suffix_lem a).0 ends)
            ∙ append_assoc (without_last a) (b'/' ∷ []) b
            ∙ ap (λ t. without_last a ++ b'/' ∷ t) (sym ((prefix_lem b).1 other)))
  ]
  | inr bare ↦ elim (Bool-cases (has_prefix_slash b)) [
    | inl begins ↦
        (let (same, whole) = (prefix_lem b).0 begins in
          rw (bare, begins)
            ((λ i. sym ((suffix_lem a).1 bare) i ++ whole i)
              ∙ ap (λ t. without_last a ++ b'/' ∷ t) (sym same)))
    | inr other ↦
        rw (bare, other)
          (λ i. sym ((suffix_lem a).1 bare) i ++ b'/' ∷ sym ((prefix_lem b).1 other) i)
  ]
]
