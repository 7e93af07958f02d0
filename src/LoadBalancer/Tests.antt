-- ===== src/LoadBalancer/Tests.antt =====
-- Runs of the balancers, and their theorems at concrete inputs.
use mini_gateway.Common.{
  ◌≡◌, refl, String, List, [], ◌∷◌, map, Dict, ℕ, some, returns, lookup, insert, All-replicate,
  replicate, arith,
}
use mini_gateway.Common.Int.{pos, add64, rem}
use mini_gateway.LoadBalancer.{Request, serve}
use mini_gateway.LoadBalancer.RoundRobin.{round_robin}
use mini_gateway.LoadBalancer.RoundRobin.Cycle.{serve_each_once}
use mini_gateway.LoadBalancer.Weighted.{
  TargetWeight, weighted_round_robin, new_weighted_round_robin, select_target,
}
use mini_gateway.LoadBalancer.Weighted.Cycle.{serve-first_round}

abbrev three : List String
three = "a" ∷ "b" ∷ "c" ∷ []

abbrev get_api : Request
get_api = record { path = "/api"; remote_addr = "10.0.0.1:5000" }

abbrev rule : String → ℕ → TargetWeight
rule t w = record { target = t; weight = pos w }

abbrev api_rules : List TargetWeight
api_rules = rule "a" 1 ∷ rule "b" 2 ∷ rule "c" 3 ∷ []

abbrev rules : Dict (List TargetWeight)
rules = ("/api", api_rules) ∷ ("/none", []) ∷ []

serve_each_once_example :
    ((serve round_robin (record { next = 4 }) three (replicate 3 get_api)).0
      ≡ map returns ("b" ∷ "c" ∷ "a" ∷ []))
    × ((serve round_robin (record { next = 4 }) three (replicate 3 get_api)).1.next ≡ 7)
serve_each_once_example =
    serve_each_once three (omega arith) (omega arith) (record { next = 4 }) (replicate 3 get_api)
      refl (omega arith)

api_found : lookup "/api" rules ≡ some api_rules
unfolding lookup
api_found = refl

serve-first_round_example :
    (serve weighted_round_robin (new_weighted_round_robin rules) three (replicate 6 get_api)).0
    ≡ map returns ("a" ∷ "b" ∷ "b" ∷ "c" ∷ "c" ∷ "c" ∷ [])
serve-first_round_example =
    serve-first_round rules "/api" api_rules (1 ∷ 2 ∷ 3 ∷ []) three (replicate 6 get_api) api_found
      refl (omega arith) (omega arith) (omega arith)
      (All-replicate (λ (r : Request). r.path ≡ "/api") 6 get_api refl) refl

-- The table in the comment of `SelectTarget`: the round begins again after its six requests.
weights_1_2_3 :
    (serve weighted_round_robin (new_weighted_round_robin rules) three (replicate 7 get_api)).0
    ≡ map returns ("a" ∷ "b" ∷ "b" ∷ "c" ∷ "c" ∷ "c" ∷ "a" ∷ [])
unfolding serve new_weighted_round_robin select_target lookup insert add64 rem
weights_1_2_3 = refl
