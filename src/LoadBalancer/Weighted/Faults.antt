-- ===== src/LoadBalancer/Weighted/Faults.antt =====
-- Where the weighted balancer departs from its interface: it may leave the targets that it is
-- offered, and it panics on a path that is configured with no target.
use mini_gateway.Common.{
  ◌%◌, ◌<◌, ◌≡◌, String, List, [], some, arith, lookup, insert, panics, length,
}
use mini_gateway.Common.Int.{pos, negsuc, rem, add64-negsuc_zero}
use native.Mathlib.Nat.{mod-eq_of_lt, add-zero}
use mini_gateway.LoadBalancer.Weighted.Step.{select_target-many}
use mini_gateway.LoadBalancer.Weighted.{WrrState, WeightedRoundRobin, select_target, select_state}

select_state-same :
    (state : WrrState) (offer offer' : List String)
    → 0 < length state.targets
    → select_state state offer ≡ select_state state offer'
unfolding select_state
select_state-same state offer offer' h = ground arith

select_state-empty :
    (state : WrrState) (offer : List String)
    → state.targets ≡ []
    → state.current_count ≡ negsuc 0
    → 1 < length offer
    → select_state state offer ≡ (panics, record state { current_count = pos 0 })
unfolding select_state rem
select_state-empty state offer none_here start many =
    let one : 1 % length offer ≡ 1 = mod-eq_of_lt many in
    let nought : 0 % length offer ≡ 0 = mod-eq_of_lt (omega arith) in
    rw (none_here, start, add64-negsuc_zero, add-zero, one, nought)

-- A path with a configured target: what is served, and the state after it, do not depend on the
-- targets that the caller offers, as long as it offers two or more.
pub select_target-ignores_offer :
    (wrr : WeightedRoundRobin) (path : String) (state : WrrState) (offer offer' : List String)
    → lookup path wrr.states ≡ some state
    → 0 < length state.targets
    → 1 < length offer
    → 1 < length offer'
    → select_target wrr offer path ≡ select_target wrr offer' path
select_target-ignores_offer wrr path state offer offer' found h many many' = rw (
  select_target-many wrr offer path state many found,
  select_target-many wrr offer' path state many' found,
  select_state-same state offer offer' h,
)

-- A path configured with no target, at the counter of a new balancer: the first request that offers
-- two targets or more panics, and leaves the counter at 0.
pub select_target-empty_rules_panics :
    (wrr : WeightedRoundRobin) (path : String) (state : WrrState) (offer : List String)
    → lookup path wrr.states ≡ some state
    → state.targets ≡ []
    → state.current_count ≡ negsuc 0
    → 1 < length offer
    → select_target wrr offer path ≡ (
      panics,
      record wrr { states = insert path (record state { current_count = pos 0 }) wrr.states },
    )
select_target-empty_rules_panics wrr path state offer found none_here start many = rw (
  select_target-many wrr offer path state many found,
  select_state-empty state offer none_here start many,
)
