-- ===== src/Proxy/Selection/Balancers.antt =====
-- The balancers that keep what the proxy asks of one.
use mini_gateway.Common.{ℕ, List}
use mini_gateway.LoadBalancer.Ketama.{ketama}
use mini_gateway.LoadBalancer.Ketama.Ring.{IsRing}
use mini_gateway.LoadBalancer.Ketama.Offered.{select_target-stable}
use mini_gateway.Proxy.Selection.Canary.{Offers}

-- The Ketama balancer does while its ring is well formed.
pub ketama-Offers : (hash : List ℕ → ℕ) → Offers (ketama hash) IsRing
ketama-Offers hash = record {
  offers = λ k targets r v some_target few.
      (let (t, served, m, _, _) = select_target-stable hash k targets r.remote_addr v some_target in
        (t, served, m));
}
