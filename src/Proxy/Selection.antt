-- ===== src/Proxy/Selection.antt =====
-- internal/core/routing/proxy/http_proxy.go: the choice of a target, with the object pools switched
-- off (each slice is new). The load balancer is any with the interface's methods; what `rand.Intn`
-- draws is an argument.
pub mod Random
pub mod Canary
pub mod Balancers
mod Tests
use mini_gateway.Common.{
  ℕ, String, Bool, true, false, ◌&&◌, List, [], ◌∷◌, Option, none, some, Outcome, returns, panics,
  ◌>>=◌, or_panic, map, length, get_elem?, select, ltb, ◌==◌, str_eq, if◌then◌else◌,
}
use mini_gateway.Common.Int.{ℤ, pos, add64, ltb_ℤ}
use mini_gateway.Config.{RoutingRule, RoutingRules, Grayscale}
use mini_gateway.LoadBalancer.{LoadBalancer, Request}

abbrev pub default_env : String
default_env = "stable"

abbrev pub canary_env : String
canary_env = "canary"

-- The value of the X-Env header; a missing header reads as the empty text.
unfoldable pub get_env_from_header : String → String
get_env_from_header env = if str_eq env "" then default_env else env

abbrev pub is_canary : RoutingRule → Bool
is_canary rule = str_eq rule.env canary_env

-- A log line reads the first rule, and panics when there is none.
unfoldable pub filter_rules : RoutingRules → String → Outcome RoutingRules
filter_rules rules env =
    if str_eq env canary_env
    then (if length (select is_canary rules) == 0
        then (or_panic (get_elem? rules 0) >>= λ _. returns rules)
        else returns (select is_canary rules))
    else returns rules

unfoldable pub filter_rules_with_fallback : RoutingRules → String → Grayscale → Outcome RoutingRules
unfolding filter_rules
filter_rules_with_fallback rules env grayscale = filter_rules rules env >>= λ filtered.
    (if length filtered == 0 && str_eq env grayscale.canary_env
      then (or_panic (get_elem? rules 0) >>= λ _. filter_rules rules grayscale.default_env)
      else returns filtered)

abbrev pub extract_targets : RoutingRules → List String
extract_targets rules = map (λ rule. rule.target) rules

unfoldable pub total_weight : ℤ → RoutingRules → ℤ
total_weight total [] = total
total_weight total (rule ∷ rules) = total_weight (add64 total rule.weight) rules

-- The loop over the running total; after it, the last rule.
unfoldable pub pick_drawn : ℤ → ℤ → RoutingRule → RoutingRules → RoutingRule
pick_drawn drawn cumulative last [] = last
pick_drawn drawn cumulative last (rule ∷ rules) =
    let cumulative' = add64 cumulative rule.weight in
    let rest = pick_drawn drawn cumulative' rule rules in
    if ltb_ℤ drawn cumulative' then rule else rest

-- The draw, for two rules or more. `rand.Intn` panics at a bound that is not positive.
unfoldable pub draw_rule : ℤ → RoutingRule → RoutingRules → Outcome (Option RoutingRule)
unfolding total_weight pick_drawn
draw_rule drawn last rules =
    if ltb_ℤ (pos 0) (total_weight (pos 0) rules)
    then returns (some (pick_drawn drawn (pos 0) last rules))
    else panics

unfoldable pub weighted_random_select : ℤ → RoutingRules → Outcome (Option RoutingRule)
unfolding draw_rule
weighted_random_select drawn [] = returns none
weighted_random_select drawn (rule ∷ []) = returns (some rule)
weighted_random_select drawn (rule ∷ second ∷ rules) = draw_rule drawn rule (rule ∷ second ∷ rules)

-- The target and its environment.
abbrev chosen_or_first : RoutingRules → Option RoutingRule → Outcome (String × String)
chosen_or_first rules none =
    or_panic (get_elem? rules 0) >>= λ rule. returns (rule.target, rule.env)
chosen_or_first rules (some rule) = returns (rule.target, rule.env)

unfoldable pub select_with_weighted_random : ℤ → RoutingRules → Outcome (String × String)
unfolding weighted_random_select
select_with_weighted_random drawn rules =
    weighted_random_select drawn rules >>= λ rule. chosen_or_first rules rule

-- The environment of the first rule with the target.
unfoldable pub env_of_target : String → RoutingRules → String
env_of_target target [] = default_env
env_of_target target (rule ∷ rules) =
    if str_eq rule.target target then rule.env else env_of_target target rules

abbrev env_or : Option String → String → RoutingRules → String
unfolding env_of_target
env_or (some env) target rules = env
env_or none target rules = env_of_target target rules

module _ {S : Type 0} (lb : LoadBalancer S) where
  unfoldable pub select_with_load_balancer :
      S → Request → RoutingRules → Option String → Outcome (String × String) × S
  unfolding env_of_target
  select_with_load_balancer s r rules env_override =
      let (o, s') = lb.select_target s (extract_targets rules) r in
      (
        o >>= λ target.
            (if str_eq target ""
              then returns ("", "")
              else returns (target, env_or env_override target rules)),
        s',
      )

  -- The rest of `selectTarget` under grayscale, over the filtered rules.
  unfoldable pub select_grayscale :
      S → Request → ℤ → Bool → Outcome RoutingRules → Outcome (String × String) × S
  unfolding select_with_weighted_random select_with_load_balancer
  select_grayscale s r drawn weighted_random panics = (panics, s)
  select_grayscale s r drawn weighted_random (returns []) = (panics, s)
  select_grayscale s r drawn weighted_random (returns (rule ∷ rules)) =
      if weighted_random && ltb 1 (length (rule ∷ rules))
      then (select_with_weighted_random drawn (rule ∷ rules), s)
      else select_with_load_balancer s r (rule ∷ rules) (some rule.env)

  unfoldable pub select_target :
      Grayscale → S → Request → String → ℤ → RoutingRules → Outcome (String × String) × S
  unfolding select_grayscale get_env_from_header filter_rules_with_fallback
  select_target grayscale s r x_env drawn rules =
      if grayscale.enabled
      then select_grayscale s r drawn grayscale.weighted_random
          (filter_rules_with_fallback rules (get_env_from_header x_env) grayscale)
      else select_with_load_balancer s r rules none
