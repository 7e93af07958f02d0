-- ===== src/LoadBalancer.antt =====
-- internal/core/loadbalancer/interface.go: the interface that the HTTP proxy calls, as a record
-- over the balancer's state, and a run of requests through it. A call gives its outcome and the
-- state it leaves, also when it panics: the server recovers, and the next request meets that state.
pub mod Cyclic
pub mod RoundRobin
pub mod Weighted
pub mod Ketama
pub mod Consul
pub mod Factory
mod Tests
use mini_gateway.Common.{String, List, [], ◌∷◌, Outcome}

-- What the balancers read of an `http.Request`.
pub record Request : Type 0 where
  pub path : String
  pub remote_addr : String

pub record LoadBalancer (S : Type 0) : Type 0 where
  pub select_target : S → List String → Request → Outcome String × S
  pub type_name : String

-- The outcomes of one request after the other over the same targets, and the state at the end.
unfoldable pub serve :
    {S : Type 0} → LoadBalancer S → S → List String → List Request → List (Outcome String) × S
serve lb s targets [] = ([], s)
serve lb s targets (r ∷ rs) =
    let (o, s') = lb.select_target s targets r in
    let (os, s'') = serve lb s' targets rs in (o ∷ os, s'')
