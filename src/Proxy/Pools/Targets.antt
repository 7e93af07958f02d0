-- ===== src/Proxy/Pools/Targets.antt =====
-- extractTargets and the first half of selectWithLoadBalancer of internal/core/routing/proxy/http_proxy.go over
-- the Ketama balancer of internal/core/loadbalancer/ketame.go, with the memory pool switched on: the nodes that
-- the balancer keeps are a slice of the targets' arrays.
pub mod Stale
mod Tests
use mini_gateway.Common.{ℕ, String, Bool, List, [], ◌∷◌, map, length, ◌==◌, Outcome, if◌then◌else◌}
use mini_gateway.Config.{RoutingRule, RoutingRules}
use mini_gateway.LoadBalancer.Ketama.{Ketama, new_ketama, needs_rebuild, select_target}
use mini_gateway.Proxy.Pools.{Slice, Memory, contents, taken, append_each}

-- The nodes of `ketama` are what the slice held at the last request.
pub record SharedKetama : Type 0 where
  pub ketama : Ketama
  pub nodes : Slice

unfoldable pub get_targets : ℕ → Memory String → Slice × Memory String
unfolding taken
get_targets capacity m = taken m.pool "" capacity m

unfoldable pub put_targets : Slice → Memory String → Memory String
put_targets s m = record m { pool = s ∷ m.pool }

unfoldable pub extract_targets : ℕ → RoutingRules → Memory String → Slice × Memory String
unfolding get_targets append_each
extract_targets capacity rules m =
    let (targets, m') = get_targets capacity m in append_each targets (map (λ r. r.target) rules) m'

-- When the process starts.
abbrev pub no_memory : Memory String
no_memory = record { cells = λ array. []; next = 1; pool = [] }

unfoldable pub new_shared : ℕ → SharedKetama
unfolding new_ketama
new_shared replicas = record { ketama = new_ketama replicas; nodes = record { array = 0; len = 0 } }

module _ (hash : List ℕ → ℕ) (capacity : ℕ) where
  -- `SelectTarget` with the targets in a slice, and the slice that the balancer keeps after it.
  unfoldable pub select_shared :
      SharedKetama → Slice → String → Memory String → Outcome String × SharedKetama
  unfolding needs_rebuild select_target
  select_shared shared targets addr m =
      let k = record shared.ketama { nodes = contents m shared.nodes } in
      let values = contents m targets in
      let (node, k') = select_target hash k values addr in
      let kept =
        if length values == 0
        then shared.nodes
        else if needs_rebuild k.nodes values
        then targets
        else shared.nodes in
      (node, record { ketama = k'; nodes = kept })

  -- The targets are put back when the function returns.
  unfoldable pub select_with_load_balancer :
      RoutingRules
      → String
      → SharedKetama
      → Memory String
      → Outcome String × SharedKetama × Memory String
  unfolding extract_targets select_shared put_targets
  select_with_load_balancer rules addr shared m =
      let (targets, m') = extract_targets capacity rules m in
      let (node, shared') = select_shared shared targets addr m' in
      (node, shared', put_targets targets m')
