-- ===== src/Proxy/Selection/Canary.antt =====
-- A request for the canary environment is sent to a canary target.
use mini_gateway.Common.{
  ◌<◌, ◌≡◌, refl, ap, sym, subst, ◌∙◌, String, Bool, true, false, ◌&&◌, List, [], ◌∷◌, some,
  Outcome, returns, arith, Bool-cases, inl, inr, ◌⊎◌, ltb, length, length-map, length-select-le,
  any, select, All, Elem, eq_iff, str_eq, ◌==◌,
}
use mini_gateway.Common.Int.{ℤ, pos, ltb_ℤ, add64}
use mini_gateway.Config.{RoutingRule, RoutingRules, Grayscale}
use mini_gateway.LoadBalancer.{LoadBalancer, Request}
use mini_gateway.Proxy.Selection.{
  is_canary, canary_env, filter_rules, filter_rules_with_fallback, extract_targets, total_weight,
  pick_drawn, draw_rule, weighted_random_select, select_with_weighted_random,
  select_with_load_balancer, select_grayscale, get_env_from_header, select_target,
}

-- What a balancer promises, in the states that it can be in: it serves one of the targets offered, of
-- which there are fewer than 2^32.
pub record Offers {S : Type 0} (lb : LoadBalancer S) (Valid : S → Type 0) : Type 0 where
  pub offers :
      (s : S) (targets : List String) (r : Request)
      → Valid s
      → 0 < length targets
      → length targets < 4294967296
      → (t : String) × ((lb.select_target s targets r).0 ≡ returns t) × Elem t targets

module _ {A : Type 0} (p : A → Bool) where
  Elem-select : (x : A) (xs : List A) → Elem x (select p xs) → Elem x xs × (p x ≡ true)
  Elem-select x [] h = elim h [ ]
  Elem-select x (y ∷ ys) h = elim (Bool-cases (p y)) [
    | inr dropped ↦ (let (m, e) = Elem-select x ys (rw dropped at h) in (inr m, e))
    | inl kept ↦
        (let h' : Elem x (y ∷ select p ys) = rw kept at h in
          elim h' [
            | inl same ↦ (inl same, rw same kept)
            | inr later ↦ (let (m, e) = Elem-select x ys later in (inr m, e))
          ])
  ]

  any-select : (xs : List A) → any p xs ≡ true → (y : A) × (ys : List A) × (select p xs ≡ y ∷ ys)
  any-select [] h = cc
  any-select (x ∷ xs) h = elim (Bool-cases (p x)) [
    | inl kept ↦ (x, select p xs, rw kept refl)
    | inr dropped ↦ (let (y, ys, e) = any-select xs (rw dropped at h) in (y, ys, rw dropped e))
  ]

All-Elem_of : {A : Type 0} (P : A → Type 0) (x : A) (xs : List A) → All P xs → Elem x xs → P x
All-Elem_of P x [] h m = elim m [ ]
All-Elem_of P x (y ∷ ys) h m = elim m [
  | inl same ↦ rw same h.0
  | inr later ↦ All-Elem_of P x ys h.1 later
]

Elem-extract_targets :
    (t : String) (rules : RoutingRules)
    → Elem t (extract_targets rules)
    → (rule : RoutingRule) × Elem rule rules × (t ≡ rule.target)
Elem-extract_targets t [] m = elim m [ ]
Elem-extract_targets t (rule ∷ rules) m = elim m [
  | inl same ↦ (rule, inl refl, same)
  | inr later ↦
      (let (rule', m', same) = Elem-extract_targets t rules later in (rule', inr m', same))
]

pick_drawn-Elem :
    (drawn cumulative : ℤ) (last : RoutingRule) (rules : RoutingRules)
    → Elem (pick_drawn drawn cumulative last rules) (last ∷ rules)
unfolding pick_drawn
pick_drawn-Elem drawn cumulative last [] = inl refl
pick_drawn-Elem drawn cumulative last (rule ∷ rules) =
    let cumulative' = add64 cumulative rule.weight in
    elim (Bool-cases (ltb_ℤ drawn cumulative')) [
      | inl hit ↦
          let first : pick_drawn drawn cumulative last (rule ∷ rules) ≡ rule =
            rw (pick_drawn, hit) refl in
          subst (λ x. Elem x (last ∷ rule ∷ rules)) (sym first) (inr (inl refl))
      | inr miss ↦
          let later : pick_drawn drawn cumulative last (rule ∷ rules)
              ≡ pick_drawn drawn cumulative' rule rules =
            rw (pick_drawn, miss) refl in
          subst (λ x. Elem x (last ∷ rule ∷ rules)) (sym later)
            (inr (pick_drawn-Elem drawn cumulative' rule rules))
    ]

-- The request is sent to a rule of the canary environment.
abbrev pub IsSentToCanary : {S : Type 0} → RoutingRules → Outcome (String × String) × S → Type 0
IsSentToCanary rules o =
    (rule : RoutingRule) × Elem rule rules
    × (rule.env ≡ canary_env)
    × (o.0 ≡ returns (rule.target, canary_env))

draw_rule-Elem :
    (drawn : ℤ) (rule : RoutingRule) (rules : RoutingRules)
    → ltb_ℤ (pos 0) (total_weight (pos 0) (rule ∷ rules)) ≡ true
    → (found : RoutingRule) × (draw_rule drawn rule (rule ∷ rules) ≡ returns (some found))
      × Elem found (rule ∷ rules)
unfolding draw_rule
draw_rule-Elem drawn rule rules positive = (
  pick_drawn drawn (pos 0) rule (rule ∷ rules),
  rw positive refl,
  elim (pick_drawn-Elem drawn (pos 0) rule (rule ∷ rules)) [ inl same ↦ inl same | inr m ↦ m ],
)

weighted_random_select-Elem :
    (drawn : ℤ) (rule : RoutingRule) (rules : RoutingRules)
    → ltb_ℤ (pos 0) (total_weight (pos 0) (rule ∷ rules)) ≡ true
    → (found : RoutingRule) × (weighted_random_select drawn (rule ∷ rules) ≡ returns (some found))
      × Elem found (rule ∷ rules)
unfolding weighted_random_select
weighted_random_select-Elem drawn rule [] positive = (rule, refl, inl refl)
weighted_random_select-Elem drawn rule (second ∷ rules) positive =
    draw_rule-Elem drawn rule (second ∷ rules) positive

module _ {S : Type 0} (lb : LoadBalancer S) (Valid : S → Type 0) (law : Offers lb Valid) where
  select_with_load_balancer-Elem :
      (s : S) (r : Request) (rule : RoutingRule) (rules : RoutingRules) (env : String)
      → Valid s
      → length (rule ∷ rules) < 4294967296
      → All (λ rule. str_eq rule.target "" ≡ false) (rule ∷ rules)
      → (found : RoutingRule) × Elem found (rule ∷ rules)
        × ((select_with_load_balancer lb s r (rule ∷ rules) (some env)).0
            ≡ returns (found.target, env))
  unfolding select_with_load_balancer
  select_with_load_balancer-Elem s r rule rules env v few named =
      let (t, served, m) =
        law.offers s (extract_targets (rule ∷ rules)) r v (omega arith)
          (omega (arith, few, length-map (λ rule. rule.target) rules)) in
      let (found, m', same) = Elem-extract_targets t (rule ∷ rules) m in
      let name : str_eq t "" ≡ false =
        rw same
          (All-Elem_of (λ rule. str_eq rule.target "" ≡ false) found (rule ∷ rules) named m') in
      (found, m', rw (served, name, same) refl)

  select_grayscale-Elem :
      (s : S) (r : Request) (drawn : ℤ) (weighted_random : Bool) (rule : RoutingRule)
      (rules : RoutingRules)
      → Valid s
      → length (rule ∷ rules) < 4294967296
      → All (λ rule. str_eq rule.target "" ≡ false) (rule ∷ rules)
      → (weighted_random ≡ true → ltb_ℤ (pos 0) (total_weight (pos 0) (rule ∷ rules)) ≡ true)
      → (found : RoutingRule) × (env : String) × Elem found (rule ∷ rules)
        × ((env ≡ found.env) ⊎ (env ≡ rule.env))
        × ((select_grayscale lb s r drawn weighted_random (returns (rule ∷ rules))).0
            ≡ returns (found.target, env))
  unfolding select_grayscale select_with_weighted_random
  select_grayscale-Elem s r drawn weighted_random rule rules v few named positive =
      elim (Bool-cases (weighted_random && ltb 1 (length (rule ∷ rules)))) [
        | inl random ↦
            let (found, drew, m) =
              weighted_random_select-Elem drawn rule rules (positive (ground (arith, random))) in
            (found, found.env, m, inl refl, rw (random, drew) refl)
        | inr balanced ↦
            let (found, m, served) =
              select_with_load_balancer-Elem s r rule rules rule.env v few named in
            (found, rule.env, m, inr refl, rw (balanced) served)
      ]

  select-All :
      (rules : RoutingRules)
      → All (λ rule. str_eq rule.target "" ≡ false) rules
      → All (λ rule. str_eq rule.target "" ≡ false) (select is_canary rules)
  select-All [] h = tt
  select-All (rule ∷ rules) h = elim (Bool-cases (is_canary rule)) [
    | inl kept ↦ rw kept (h.0, select-All rules h.1)
    | inr dropped ↦ rw dropped (select-All rules h.1)
  ]

  filter_rules-canary :
      (grayscale : Grayscale) (rule : RoutingRule) (rules rest : RoutingRules)
      → select is_canary rules ≡ rule ∷ rest
      → filter_rules_with_fallback rules canary_env grayscale ≡ returns (rule ∷ rest)
  unfolding filter_rules_with_fallback filter_rules
  filter_rules-canary grayscale rule rules rest e =
      let some_rule : (length (rule ∷ rest) == 0) ≡ false = ground arith in
      rw (e, some_rule, some_rule) refl

  select_target-on :
      (grayscale : Grayscale) (s : S) (r : Request) (drawn : ℤ) (rules : RoutingRules)
      → grayscale.enabled ≡ true
      → select_target lb grayscale s r canary_env drawn rules
        ≡ select_grayscale lb s r drawn grayscale.weighted_random
            (filter_rules_with_fallback rules canary_env grayscale)
  unfolding select_target get_env_from_header
  select_target-on grayscale s r drawn rules on = simp on

  -- Under grayscale, with a rule for the canary environment among fewer than 2^32 and no rule with an
  -- empty target, a request whose X-Env is "canary" is sent to a rule of that environment, by weighted
  -- random choice (with weights whose sum is positive) or by a balancer that serves one of the targets it is offered.
  -- That law is a condition on the balancer, which the weighted round-robin and Consul do not keep.
  pub select_target-canary :
      (grayscale : Grayscale) (s : S) (r : Request) (drawn : ℤ) (rules : RoutingRules)
      → Valid s
      → grayscale.enabled ≡ true
      → any is_canary rules ≡ true
      → length rules < 4294967296
      → All (λ rule. str_eq rule.target "" ≡ false) rules
      → (grayscale.weighted_random ≡ true
          → ltb_ℤ (pos 0) (total_weight (pos 0) (select is_canary rules)) ≡ true)
      → IsSentToCanary rules (select_target lb grayscale s r canary_env drawn rules)
  select_target-canary grayscale s r drawn rules v on some_canary few named positive =
      let (rule, rest, e) = any-select is_canary rules some_canary in
      let short = length-select-le is_canary rules in
      let shorter : length (select is_canary rules) ≡ length (rule ∷ rest) = ap length e in
      let (found, env, m, which, served) =
        select_grayscale-Elem s r drawn grayscale.weighted_random rule rest v
          (omega (arith, short, shorter, few)) (rw e at (select-All rules named))
          (λ w. rw e at (positive w)) in
      let all_canary : (x : RoutingRule)
          → Elem x (rule ∷ rest)
          → Elem x rules × (x.env ≡ canary_env) =
        λ x m.
          (let (m', c) = Elem-select is_canary x rules (subst (Elem x) (sym e) m) in
            (m', (eq_iff x.env canary_env).0 c)) in
      let (m', canary) = all_canary found m in
      let same_env : env ≡ canary_env = elim which [
        | inl own ↦ own ∙ canary
        | inr first ↦ first ∙ (all_canary rule (inl refl)).1
      ] in
      let sent : (select_target lb grayscale s r canary_env drawn rules).0
          ≡ returns (found.target, env) =
        rw
          (
            select_target-on grayscale s r drawn rules on,
            filter_rules-canary grayscale rule rules rest e,
          )
          served in
      (found, m', canary, sent ∙ ap (λ x. returns (found.target, x)) same_env)
