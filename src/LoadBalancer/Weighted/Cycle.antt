-- ===== src/LoadBalancer/Weighted/Cycle.antt =====
-- A full round of the weighted balancer serves each target as often as its weight says.
use mini_gateway.Common.{
  ℕ, ◌+◌, ◌%◌, ◌<◌, ◌≡◌, refl, ◌∙◌, ap, String, List, [], ◌∷◌, ◌++◌, map, some, arith, lookup,
  insert, lookup-insert_self, lookup-map, returns, length, take, drop, All, length-map, Dict,
  append-nil,
}
use native.Mathlib.Numerals.{add-one}
use native.Mathlib.Nat.{mod-eq_of_lt}
use mini_gateway.Common.Int.{pos, two_63, add64-pos}
use mini_gateway.LoadBalancer.{Request, serve}
use mini_gateway.LoadBalancer.Cyclic.{Reads, serve_full}
use mini_gateway.LoadBalancer.Weighted.{
  TargetWeight, sum_weights, WrrState, WeightedRoundRobin, select_state, select_weighted,
  weighted_round_robin, init_state, new_weighted_round_robin,
}
use mini_gateway.LoadBalancer.Weighted.Step.{select_target-many}
use mini_gateway.LoadBalancer.Weighted.Expanded.{
  expanded, sum, length-expanded, before, IsWeighted, select_weighted-expanded,
}

some_target : (ts : List String) (ws : List ℕ) → length ts ≡ length ws → 0 < sum ws → 0 < length ts
some_target [] [] same h = absurd (omega arith)
some_target [] (w ∷ ws) same h = absurd (omega arith)
some_target (t ∷ ts) ws same h = omega arith

select_state-weighted :
    (state : WrrState) (ws : List ℕ) (targets : List String)
    → IsWeighted state ws
    → select_state state targets ≡ select_weighted state
unfolding select_state
select_state-weighted state ws targets v =
    let some = some_target state.targets ws v.same_length v.positive in
    rw v.total (ground (arith, some))

-- The balancer's state for the path is the given one, but that the next call moves the counter to m.
abbrev pub Holds : String → WrrState → ℕ → WeightedRoundRobin → Type 0
Holds path state m wrr = lookup path wrr.states ≡ some (record state { current_count = before m })

module _ (path : String) (state : WrrState) (ws : List ℕ) (v : IsWeighted state ws)
    (targets : List String) (many : 1 < length targets) where
  reads_expanded :
      Reads weighted_round_robin targets
        (expanded state.targets ws)
        (λ r. r.path ≡ path)
        two_63
        (Holds path state)
  reads_expanded m wrr r here fit room =
      let at_m : WrrState = record state { current_count = before m } in
      let v' : IsWeighted at_m ws = record {
        weights = v.weights;
        total = v.total;
        same_length = v.same_length;
        positive = v.positive;
        fits = v.fits;
      } in
      let call =
        select_state-weighted at_m ws targets v'
        ∙ select_weighted-expanded at_m ws m v' refl (omega arith) in
      let next : before (m + 1) ≡ pos m = ap before (add-one m) in
      (
        record wrr { states = insert path (record state { current_count = pos m }) wrr.states },
        rw (
          fit,
          select_target-many wrr targets path at_m many here,
          call,
          length-expanded state.targets ws v.same_length,
        ),
        rw next (lookup-insert_self path (record state { current_count = pos m }) wrr.states),
      )

  -- With as many requests for the path as the weights add up to, the targets are served as the
  -- expanded list says, each as often as its weight, from the counter's position and then from the
  -- start; the counter has moved on by a round. There are two targets or more in each request, and
  -- the counter does not overflow during the round.
  pub serve-round :
      (m : ℕ) (wrr : WeightedRoundRobin) (reqs : List Request)
      → Holds path state m wrr
      → All (λ r. r.path ≡ path) reqs
      → length reqs ≡ sum ws
      → m + sum ws < two_63
      → ((serve weighted_round_robin wrr targets reqs).0
          ≡ map returns (
              drop (m % sum ws) (expanded state.targets ws)
              ++ take (m % sum ws) (expanded state.targets ws)))
        × Holds path state (m + sum ws) (serve weighted_round_robin wrr targets reqs).1
  serve-round m wrr reqs here fit round room =
      let long = length-expanded state.targets ws v.same_length in
      rw long at (
        serve_full weighted_round_robin targets (expanded state.targets ws) (λ r. r.path ≡ path)
          two_63 (Holds path state) reads_expanded m wrr reqs here fit
          (omega (arith, v.positive, long)) (omega (arith, long)) (omega (arith, long)))

sum_weights-pos :
    (c : ℕ) (rules : List TargetWeight) (ws : List ℕ)
    → map (λ rule. rule.weight) rules ≡ map pos ws
    → c + sum ws < two_63
    → sum_weights (pos c) rules ≡ pos (c + sum ws)
unfolding sum_weights
sum_weights-pos c [] [] e h = ap pos (omega arith)
sum_weights-pos c [] (w ∷ ws) e h = cc
sum_weights-pos c (rule ∷ rules) [] e h = cc
sum_weights-pos c (rule ∷ rules) (w ∷ ws) e h =
    let head : rule.weight ≡ pos w = ground arith in
    rw
      (
        head,
        add64-pos c w (omega arith),
        sum_weights-pos (c + w) rules ws (ground arith) (omega arith),
      )
      (ap pos (omega arith))

init_state-IsWeighted :
    (rules : List TargetWeight) (ws : List ℕ)
    → map (λ rule. rule.weight) rules ≡ map pos ws
    → 0 < sum ws
    → sum ws < two_63
    → IsWeighted (init_state rules) ws
unfolding init_state
init_state-IsWeighted rules ws e h fits = record {
  weights = e;
  total = sum_weights-pos 0 rules ws e (omega arith) ∙ ap pos (omega arith);
  same_length = omega (
    arith,
    length-map (λ (r : TargetWeight). r.target) rules,
    length-map (λ (r : TargetWeight). r.weight) rules,
    length-map pos ws,
    ap length e,
  );
  positive = h;
  fits = fits;
}

lookup-states :
    (rules : Dict (List TargetWeight)) (path : String) (target_rules : List TargetWeight)
    → lookup path rules ≡ some target_rules
    → lookup path (new_weighted_round_robin rules).states ≡ some (init_state target_rules)
unfolding new_weighted_round_robin
lookup-states rules path target_rules e = lookup-map init_state path rules ∙ rw e refl

-- A new balancer whose rules for the path have the weights ws, not all zero and adding up to an int,
-- serves the first round of requests for that path in the order of the rules, each target as often as
-- its weight says.
pub serve-first_round :
    (rules : Dict (List TargetWeight)) (path : String) (target_rules : List TargetWeight)
    (ws : List ℕ) (targets : List String) (reqs : List Request)
    → lookup path rules ≡ some target_rules
    → map (λ rule. rule.weight) target_rules ≡ map pos ws
    → 0 < sum ws
    → sum ws < two_63
    → 1 < length targets
    → All (λ r. r.path ≡ path) reqs
    → length reqs ≡ sum ws
    → (serve weighted_round_robin (new_weighted_round_robin rules) targets reqs).0
      ≡ map returns (expanded (map (λ rule. rule.target) target_rules) ws)
unfolding init_state
serve-first_round rules path target_rules ws targets reqs found weights positive fits many fit
      round =
    let v = init_state-IsWeighted target_rules ws weights positive fits in
    let fresh : lookup path (new_weighted_round_robin rules).states
        ≡ some (init_state target_rules) =
      lookup-states rules path target_rules found in
    let (outs, _) =
      serve-round path (init_state target_rules) ws v targets many 0
        (new_weighted_round_robin rules) reqs fresh fit round (omega arith) in
    let start : 0 % sum ws ≡ 0 = mod-eq_of_lt positive in
    rw (outs, start) (ap (map returns) (append-nil _))
