-- ===== src/Proxy/Pools/Targets/Stale.antt =====
-- What the balancer answers when the array of its nodes has been given to another request.
use native.Mathlib.Nat.{mul-pos}
use mini_gateway.Common.{
  ℕ, ◌≤◌, ◌<◌, ◌≡◌, refl, sym, ap, ◌∙◌, String, true, false, List, ◌∷◌, length, map, arith, ◌==◌,
  Elem, returns, length-map,
}
use mini_gateway.Config.{RoutingRules}
use mini_gateway.LoadBalancer.Ketama.{
  Ketama, new_ketama, needs_rebuild, refresh, build_ring, pick_node,
}
use mini_gateway.LoadBalancer.Ketama.Ring.{build_ring-IsRing}
use mini_gateway.LoadBalancer.Ketama.Points.{build_ring-points, pick_node-any}
use mini_gateway.LoadBalancer.Ketama.Offered.{
  needs_rebuild-empty, refresh-same, select_target-some, pick_node-Elem,
}
use mini_gateway.Proxy.Pools.{Slice, Memory, contents, taken, append_each}
use mini_gateway.Proxy.Pools.Append.{IsAppended, append_each-IsAppended, append_each-array}
use mini_gateway.Proxy.Pools.Targets.{
  SharedKetama, get_targets, put_targets, extract_targets, no_memory, new_shared, select_shared,
  select_with_load_balancer,
}

abbrev targets_of : RoutingRules → List String
targets_of rules = map (λ r. r.target) rules

-- A new array, or the one on top of the pool, from its start.
extract_targets-new :
    (capacity : ℕ) (rules : RoutingRules)
    → IsAppended
        (record { array = 1; len = 0 })
        (get_targets capacity no_memory).1
        (targets_of rules)
        (extract_targets capacity rules no_memory)
unfolding extract_targets get_targets taken
extract_targets-new capacity rules =
    append_each-IsAppended (record { array = 1; len = 0 }) (targets_of rules)
      (get_targets capacity no_memory).1 (omega arith, omega arith)

extract_targets-reused :
    (capacity : ℕ) (rules : RoutingRules) (victim : Slice) (rest : List Slice) (m : Memory String)
    → m.pool ≡ victim ∷ rest
    → victim.array < m.next
    → length rules ≤ length (m.cells victim.array)
    → (contents (extract_targets capacity rules m).1 (extract_targets capacity rules m).0
        ≡ targets_of rules)
      × ((extract_targets capacity rules m).0 ≡ record { array = victim.array; len = length rules })
unfolding extract_targets get_targets taken
extract_targets-reused capacity rules victim rest m top old room =
    let start : Slice = record victim { len = 0 } in
    let left : Memory String = record m { pool = rest } in
    let done = append_each-IsAppended start (targets_of rules) left (omega arith, old) in
    let place =
      append_each-array start (targets_of rules) left
        (omega (arith, room, length-map (λ r. r.target) rules)) in
    let long : (append_each start (targets_of rules) left).0.len ≡ length rules =
      omega (arith, done.len, length-map (λ r. r.target) rules) in
    rw top (done.filled, λ i. record { array = place i; len = long i })

new_replicas : (n : ℕ) → 0 < n → 0 < (new_ketama n).replicas
unfolding new_ketama
new_replicas n h = h

module _ (hash : List ℕ → ℕ) (capacity : ℕ) where
  -- Targets other than the kept ones: the ring is built, and their slice is kept.
  select_shared-built :
      (shared : SharedKetama) (targets : Slice) (addr : String) (m : Memory String)
      → 0 < length (contents m targets)
      → needs_rebuild (contents m shared.nodes) (contents m targets) ≡ true
      → (select_shared hash capacity shared targets addr m).1
        ≡ record { ketama = build_ring hash shared.ketama (contents m targets); nodes = targets }
  unfolding select_shared refresh build_ring
  select_shared-built shared targets addr m some_target other =
      let k : Ketama = record shared.ketama { nodes = contents m shared.nodes } in
      let full : (length (contents m targets) == 0) ≡ false = ground arith in
      rw (select_target-some hash k (contents m targets) addr some_target, full, other) refl

  -- The kept slice itself: nothing is built.
  select_shared-kept :
      (shared : SharedKetama) (targets : Slice) (addr : String) (m : Memory String)
      → 0 < length (contents m targets)
      → shared.nodes ≡ targets
      → (select_shared hash capacity shared targets addr m).0
        ≡ pick_node hash shared.ketama (contents m targets) addr
  unfolding select_shared pick_node
  select_shared-kept shared targets addr m some_target same =
      let k : Ketama = record shared.ketama { nodes = contents m shared.nodes } in
      rw
        (
          select_target-some hash k (contents m targets) addr some_target,
          refresh-same hash k (contents m targets) (ap (contents m) same),
        )
        refl

  first_request :
      (rules : RoutingRules) (addr : String) (replicas : ℕ)
      → 0 < length rules
      → let (targets, m) = extract_targets capacity rules no_memory in
        let r =
          select_with_load_balancer hash capacity rules addr (new_shared replicas) no_memory in
        (r.1 ≡ record {
          ketama = build_ring hash (new_ketama replicas) (targets_of rules);
          nodes = targets;
        })
        × (r.2 ≡ put_targets targets m)
  unfolding select_with_load_balancer new_shared
  first_request rules addr replicas some_rule =
      let filled = (extract_targets-new capacity rules).filled in
      let shared : SharedKetama = record {
        ketama = new_ketama replicas;
        nodes = record { array = 0; len = 0 };
      } in
      let (targets, m) = extract_targets capacity rules no_memory in
      let some_target : 0 < length (contents m targets) =
        omega (arith, ap length filled, length-map (λ r. r.target) rules) in
      let other = needs_rebuild-empty (contents m targets) some_target in
      (rw (select_shared-built shared targets addr m some_target other, filled) refl, refl)

  second_request :
      (rules : RoutingRules) (addr : String) (shared : SharedKetama) (m : Memory String)
      → shared.nodes.array < m.next
      → shared.nodes.len ≤ length (m.cells shared.nodes.array)
      → length rules ≡ shared.nodes.len
      → 0 < length rules
      → (select_with_load_balancer hash capacity rules addr shared (put_targets shared.nodes m)).0
        ≡ pick_node hash shared.ketama (targets_of rules) addr
  unfolding select_with_load_balancer put_targets
  second_request rules addr shared m old room same some_rule =
      let m' = put_targets shared.nodes m in
      let (filled, slice) =
        extract_targets-reused capacity rules shared.nodes m.pool m' refl old
          (omega (arith, room, same)) in
      let kept : shared.nodes ≡ (extract_targets capacity rules m').0 =
        (λ i. record { array = shared.nodes.array; len = sym same i }) ∙ sym slice in
      let some_target : 0
          < length (
              contents (extract_targets capacity rules m').1
                (extract_targets capacity rules m').0) =
        omega (arith, ap length filled, length-map (λ r. r.target) rules) in
      select_shared-kept shared (extract_targets capacity rules m').0 addr
        (extract_targets capacity rules m').1 some_target kept
      ∙ ap (λ ts. pick_node hash shared.ketama ts addr) filled

  -- The first request after the start is for one route, the second for another with as many rules. The second is then
  -- sent to a target of the first route, which need not be one of its own: the array of the kept nodes
  -- has been filled with its targets, so the ring is not built again.
  pub select_with_load_balancer-stale :
      (first second : RoutingRules) (addr addr' : String) (replicas : ℕ)
      → 0 < replicas
      → 0 < length first
      → length second ≡ length first
      → (t : String) × ((let (_, shared, m) =
              select_with_load_balancer hash capacity first addr (new_shared replicas) no_memory in
            (select_with_load_balancer hash capacity second addr' shared m).0)
          ≡ returns t)
        × Elem t (targets_of first)
  select_with_load_balancer-stale first second addr addr' replicas some_replica some_rule same =
      let (targets, m) = extract_targets capacity first no_memory in
      let extracted = extract_targets-new capacity first in
      let (shared_is, memory_is) = first_request first addr replicas some_rule in
      let k = build_ring hash (new_ketama replicas) (targets_of first) in
      let (ring, nodes) = build_ring-IsRing hash (new_ketama replicas) (targets_of first) in
      let some_target : 0 < length (targets_of first) =
        omega (arith, length-map (λ r. r.target) first) in
      let some_point : 0 < length k.hash_ring =
        rw (build_ring-points hash (new_ketama replicas) (targets_of first))
          (mul-pos some_target (new_replicas replicas some_replica)) in
      let (t, picked, offered) =
        pick_node-Elem hash k (targets_of first) addr' ring nodes some_target in
      (
        t,
        rw (shared_is, memory_is)
            (second_request second addr' (record { ketama = k; nodes = targets }) m extracted.held.1
                extracted.held.0 (omega (arith, extracted.len, length-map (λ r. r.target) first))
                (omega arith)
              ∙ pick_node-any hash k (targets_of second) (targets_of first) addr' some_point
              ∙ picked),
        offered,
      )
