-- ===== src/Traffic/LeakyBucket/Tests.antt =====
-- The handler at small limits.
use mini_gateway.Common.{
  ℕ, ◌+◌, ◌≤◌, ◌≡◌, refl, true, List, [], ◌∷◌, none, some, returns, arith, lookup,
}
use mini_gateway.Traffic.{RateLimit}
use mini_gateway.Traffic.LeakyBucket.{Limiter, Buckets, allow, new_buckets}
use mini_gateway.Traffic.LeakyBucket.Bounds.{
  Event, request, global_tick, global_ticks, run, run-bounded,
}

abbrev cfg_of : ℕ → ℕ → RateLimit
cfg_of qps burst = record { enabled = true; qps = qps; burst = burst }

abbrev empty : ℕ → ℕ → Limiter
empty qps burst = record { capacity = burst; rate = qps; queued = 0 }

abbrev start : ℕ → ℕ → Buckets
start qps burst = record {
  global_limiter = some (empty qps burst);
  ip_limiters = [];
  route_limiters = [];
}

new_buckets-start : new_buckets (cfg_of 4 2) ≡ returns (start 4 2)
unfolding new_buckets
new_buckets-start = refl

abbrev events : List Event
events =
    request "10.0.0.1" "/a" ∷ request "10.0.0.1" "/a" ∷ global_tick ∷ request "10.0.0.2" "/b" ∷ []

run-bounded_example :
    (r : ℕ × Buckets) × (run (cfg_of 4 2) events (start 4 2) ≡ returns r)
    × (r.0 + (empty 4 2).queued ≤ (empty 4 2).capacity + global_ticks events)
run-bounded_example =
    run-bounded (cfg_of 4 2) (omega arith) (omega arith) events (start 4 2) (empty 4 2) refl refl
      (omega arith)

room : (allow (empty 1 2)).0 ≡ true
unfolding allow
room = refl

no_limiter : lookup "10.0.0.1" (start 1 2).ip_limiters ≡ none
unfolding lookup
no_limiter = refl

room_for_one : (allow (empty 4 1)).0 ≡ true
unfolding allow
room_for_one = refl
