-- ===== src/Proxy/Selection/Random.antt =====
-- The weighted random choice: each rule is chosen for as many of the numbers that can be drawn as its
-- weight says.
use mini_gateway.Common.{
  ℕ, ◌+◌, ◌-◌, ◌≤◌, ◌<◌, ◌≡◌, refl, ap, ◌∙◌, List, [], ◌∷◌, ◌++◌, map, true, some, returns, arith,
  Bool-cases, inl, inr, ltb, length, get_elem?, replicate, length-replicate, get_elem?-append_left,
  get_elem?-append_right, get_elem?-replicate,
}
use mini_gateway.Common.Int.{pos, ltb_ℤ, add64-pos, two_63}
use mini_gateway.Config.{RoutingRule, RoutingRules}
use mini_gateway.Proxy.Selection.{total_weight, pick_drawn, draw_rule, weighted_random_select}

-- A rule with a weight that is a natural number.
abbrev pub weighted : ℕ × RoutingRule → RoutingRule
weighted (w, rule) = record rule { weight = pos w }

abbrev pub weights_sum : List (ℕ × RoutingRule) → ℕ
weights_sum [] = 0
weights_sum (e ∷ es) = e.0 + weights_sum es

-- Each rule repeated by its weight.
abbrev pub repeated : List (ℕ × RoutingRule) → RoutingRules
repeated [] = []
repeated (e ∷ es) = replicate e.0 (weighted e) ++ repeated es

total_weight-pos :
    (es : List (ℕ × RoutingRule)) (c : ℕ)
    → c + weights_sum es < two_63
    → total_weight (pos c) (map weighted es) ≡ pos (c + weights_sum es)
unfolding total_weight
total_weight-pos [] c fits = ap pos (omega arith)
total_weight-pos (e ∷ es) c fits =
    rw (total_weight, add64-pos c e.0 (omega arith))
      (total_weight-pos es (c + e.0) (omega arith) ∙ ap pos (omega arith))

ltb_ℤ-pos : (a b : ℕ) → ltb_ℤ (pos a) (pos b) ≡ ltb a b
ltb_ℤ-pos a b = ground arith

pick_drawn-repeated :
    (es : List (ℕ × RoutingRule)) (x c : ℕ) (last : RoutingRule)
    → c ≤ x
    → x < c + weights_sum es
    → c + weights_sum es < two_63
    → get_elem? (repeated es) (x - c) ≡ some (pick_drawn (pos x) (pos c) last (map weighted es))
unfolding pick_drawn
pick_drawn-repeated [] x c last below inside fits = absurd (omega arith)
pick_drawn-repeated (e ∷ es) x c last below inside fits =
    let block = length-replicate e.0 (weighted e) in
    elim (Bool-cases (ltb x (c + e.0))) [
      | inl hit ↦
          rw (add64-pos c e.0 (omega arith), ltb_ℤ-pos x (c + e.0), hit)
            (get_elem?-append_left (replicate e.0 (weighted e)) (repeated es) (x - c)
                (ground (arith, block))
              ∙ get_elem?-replicate e.0 (x - c) (weighted e) (ground arith))
      | inr miss ↦
          let shift : x - c - length (replicate e.0 (weighted e)) ≡ x - (c + e.0) =
            omega (arith, block) in
          rw (add64-pos c e.0 (omega arith), ltb_ℤ-pos x (c + e.0), miss)
            (get_elem?-append_right (replicate e.0 (weighted e)) (repeated es) (x - c)
                (ground (arith, block))
              ∙ ap (get_elem? (repeated es)) shift
              ∙ pick_drawn-repeated es x (c + e.0) (weighted e) (ground arith) (omega arith)
                  (omega arith))
    ]

draw_rule-repeated :
    (es : List (ℕ × RoutingRule)) (x : ℕ) (last : RoutingRule)
    → x < weights_sum es
    → weights_sum es < two_63
    → (rule : RoutingRule) × (draw_rule (pos x) last (map weighted es) ≡ returns (some rule))
      × (get_elem? (repeated es) x ≡ some rule)
unfolding draw_rule
draw_rule-repeated es x last inside fits =
    let total : total_weight (pos 0) (map weighted es) ≡ pos (weights_sum es) =
      total_weight-pos es 0 (omega arith) ∙ ap pos (omega arith) in
    let positive : ltb 0 (weights_sum es) ≡ true = ground arith in
    let found = pick_drawn-repeated es x 0 last (omega arith) (omega arith) (omega arith) in
    (
      pick_drawn (pos x) (pos 0) last (map weighted es),
      rw (total, ltb_ℤ-pos 0 (weights_sum es), positive) refl,
      ap (get_elem? (repeated es)) (omega arith) ∙ found,
    )

-- With two rules or more, of natural weights whose sum is below 2^63, a number x below the sum chooses
-- entry x of the list in which each rule is repeated by its weight.
pub weighted_random_select-repeated :
    (es : List (ℕ × RoutingRule)) (x : ℕ)
    → 1 < length es
    → x < weights_sum es
    → weights_sum es < two_63
    → (rule : RoutingRule) × (weighted_random_select (pos x) (map weighted es)
        ≡ returns (some rule))
      × (get_elem? (repeated es) x ≡ some rule)
unfolding weighted_random_select
weighted_random_select-repeated [] x many inside fits = absurd (omega arith)
weighted_random_select-repeated (e ∷ []) x many inside fits = absurd (omega arith)
weighted_random_select-repeated (e ∷ e' ∷ es) x many inside fits =
    draw_rule-repeated (e ∷ e' ∷ es) x (weighted e) inside fits
