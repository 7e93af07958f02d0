-- ===== src/LoadBalancer/Weighted.antt =====
-- internal/core/loadbalancer/weighted_round_robin.go, and the rules that factory.go builds for it.
-- `int` is a 64-bit integer with wrap-around; the states, pointers in Go, are the entries of a
-- dictionary. Logging and tracing are left out.

pub mod Step
pub mod Expanded
pub mod Cycle
pub mod Faults
use mini_gateway.Common.{
  ℕ, suc, ◌%◌, String, Bool, List, [], ◌∷◌, map, Option, none, some, Dict, lookup, insert, Outcome,
  returns, panics, ◌>>=◌, or_panic, length, get_elem?, ◌==◌, if◌then◌else◌,
}
use mini_gateway.Common.Int.{ℤ, pos, negsuc, add64, rem, ltb_ℤ}
use mini_gateway.LoadBalancer.{LoadBalancer, Request}

pub record TargetWeight : Type 0 where
  pub target : String
  pub weight : ℤ

-- `wrrState`.
pub record WrrState : Type 0 where
  pub targets : List String
  pub weights : List ℤ
  pub total_weight : ℤ
  pub current_count : ℤ

pub record WeightedRoundRobin : Type 0 where
  pub rules : Dict (List TargetWeight)
  pub states : Dict WrrState

sum_weights : ℤ → List TargetWeight → ℤ
sum_weights total [] = total
sum_weights total (rule ∷ rest) = sum_weights (add64 total rule.weight) rest

unfoldable pub init_state : List TargetWeight → WrrState
unfolding sum_weights
init_state target_rules = record {
  targets = map (λ rule. rule.target) target_rules;
  weights = map (λ rule. rule.weight) target_rules;
  total_weight = sum_weights (pos 0) target_rules;
  current_count = negsuc 0;
}

unfoldable pub new_weighted_round_robin : Dict (List TargetWeight) → WeightedRoundRobin
unfolding init_state
new_weighted_round_robin rules = record {
  rules = rules;
  states = map (λ (path, rs). (path, init_state rs)) rules;
}

-- The loop over `state.weights`: the index of the first weight whose running total is above the
-- current position.
pick : ℤ → ℤ → ℕ → List ℤ → Option ℕ
pick current cumulative i [] = none
pick current cumulative i (weight ∷ weights) =
    let cumulative' = add64 cumulative weight in
    let rest = pick current cumulative' (suc i) weights in
    if ltb_ℤ current cumulative' then some i else rest

-- A slice is read at an `int`: a negative index panics, as one past the end does.
abbrev at_int : List String → ℤ → Outcome String
at_int targets (pos n) = or_panic (get_elem? targets n)
at_int targets (negsuc n) = panics

-- `state.targets[i]`, or the first target where no weight was reached.
chosen : List String → Option ℕ → Outcome String
chosen targets (some i) = or_panic (get_elem? targets i)
chosen targets none = or_panic (get_elem? targets 0)

-- The branch with a usable state.
unfoldable pub select_weighted : WrrState → Outcome String × WrrState
unfolding pick chosen
select_weighted state =
    let count = add64 state.current_count (pos 1) in
    (
      chosen state.targets (pick (rem count state.total_weight) (pos 0) 0 state.weights),
      record state { current_count = count },
    )

-- The fallback with a state: the counter is read, then moved on.
unfoldable pub select_simple : WrrState → List String → Outcome String × WrrState
select_simple state targets = (
  at_int targets (rem state.current_count (pos (length targets))),
  record state { current_count = rem (add64 state.current_count (pos 1)) (pos (length targets)) },
)

abbrev is_zero : ℤ → Bool
is_zero (pos n) = n == 0
is_zero (negsuc n) = Bool.false

-- What one request does to the state of its path, if it has one.
unfoldable pub select_state : WrrState → List String → Outcome String × WrrState
unfolding select_weighted select_simple
select_state state targets =
    if length state.targets == 0
    then select_simple state targets
    else if is_zero state.total_weight
    then (returns "", state)
    else select_weighted state

abbrev store :
    WeightedRoundRobin → String → Outcome String × WrrState → Outcome String × WeightedRoundRobin
store wrr path (o, state) = (o, record wrr { states = insert path state wrr.states })

unfoldable pub select_by_path :
    WeightedRoundRobin
    → List String
    → String
    → Option WrrState
    → Outcome String × WeightedRoundRobin
unfolding select_state
select_by_path wrr targets path none = (or_panic (get_elem? targets (0 % length targets)), wrr)
select_by_path wrr targets path (some state) = store wrr path (select_state state targets)

unfoldable pub select_target :
    WeightedRoundRobin → List String → String → Outcome String × WeightedRoundRobin
unfolding select_by_path
select_target wrr targets path =
    if length targets == 0
    then (returns "", wrr)
    else if length targets == 1
    then (or_panic (get_elem? targets 0), wrr)
    else select_by_path wrr targets path (lookup path wrr.states)

abbrev pub weighted_round_robin : LoadBalancer WeightedRoundRobin
weighted_round_robin = record {
  select_target = λ wrr targets r. select_target wrr targets r.path;
  type_name = "weighted-round-robin";
}
