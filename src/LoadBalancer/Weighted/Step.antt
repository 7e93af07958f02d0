-- ===== src/LoadBalancer/Weighted/Step.antt =====
-- A call that is offered two targets or more goes by the state of the request's path.
use mini_gateway.Common.{◌<◌, ◌≡◌, String, List, [], ◌∷◌, some, arith, lookup, insert, length}
use mini_gateway.LoadBalancer.Weighted.{WrrState, WeightedRoundRobin, select_target, select_state}

pub select_target-many :
    (wrr : WeightedRoundRobin) (targets : List String) (path : String) (state : WrrState)
    → 1 < length targets
    → lookup path wrr.states ≡ some state
    → select_target wrr targets path ≡ (
      (select_state state targets).0,
      record wrr { states = insert path (select_state state targets).1 wrr.states },
    )
unfolding select_target
select_target-many wrr [] path state many found = absurd (omega arith)
select_target-many wrr (t ∷ []) path state many found = absurd (omega arith)
select_target-many wrr (t ∷ u ∷ ts) path state many found = rw found (ground arith)
