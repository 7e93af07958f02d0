-- ===== src/Proxy/Grpc/Tests.antt =====
-- Two gRPC routes with a target each, and a mux that keeps the connection of the last handler.
use mini_gateway.Common.{
  ◌≡◌, refl, sym, inl, inr, Bool-cases, insert, String, true, [], ◌∷◌, Option, none, some,
  some-injective, Dict, str_eq, if◌then◌else◌,
}
use mini_gateway.Common.Int.{pos}
use mini_gateway.Config.{RoutingRules}
use mini_gateway.Proxy.Grpc.{Mux, Request, handle, adjusted_path}
use mini_gateway.Proxy.Grpc.Backends.{IsMux, handle-one_backend}

abbrev last_wins : Mux String (Option String)
last_wins = record {
  new = none;
  register = λ m conn. some (some conn);
  backend = λ m path. if str_eq path "/api/v2/hello" then m else none;
}

last_wins-new : (path : String) → last_wins.backend none path ≡ none
last_wins-new path = elim (Bool-cases (str_eq path "/api/v2/hello")) [
  | inl e ↦ rw e refl
  | inr e ↦ rw e refl
]

abbrev last_wins-IsMux : IsMux last_wins
last_wins-IsMux = record {
  is_served = λ path. str_eq path "/api/v2/hello";
  new-backend = last_wins-new;
  register-backend = λ m m' conn e path served. rw served (sym (some-injective e));
}

abbrev dial : String → Option String
dial target = some target

abbrev grpc : String → RoutingRules
grpc target =
    record { target = target; weight = pos 1; env = ""; protocol = "grpc"; health_check_path = "" }
    ∷ []

abbrev rules : Dict RoutingRules
rules = ("/grpc/a/*any", grpc "a:1") ∷ ("/grpc/b/*any", grpc "b:1") ∷ []

abbrev on_a : Request
on_a = record { route = "/grpc/a/*any"; path = "/grpc/api/v2/hello/"; written = none }

abbrev on_b : Request
on_b = record { route = "/grpc/b/*any"; path = "/grpc/api/v2/hello"; written = some 500 }

adjusted : adjusted_path "/grpc" "/grpc/api/v2/hello/" ≡ "/api/v2/hello"
unfolding adjusted_path
adjusted = refl

adjusted_b : adjusted_path "/grpc" "/grpc/api/v2/hello" ≡ "/api/v2/hello"
unfolding adjusted_path
adjusted_b = refl

handle-one_backend_example :
    (handle last_wins dial "/grpc" rules on_a).connection
    ≡ (handle last_wins dial "/grpc" rules on_b).connection
unfolding adjusted_path
handle-one_backend_example =
    handle-one_backend last_wins dial last_wins-IsMux "/grpc" rules on_a on_b refl refl

-- The request on the first route is sent to the target of the second one, and counts for its own.
counted_for_a :
    handle last_wins dial "/grpc" rules on_a
    ≡ record { forwarded_path = "/api/v2/hello"; connection = some "b:1"; counted = ("a:1", true) }
unfolding handle insert
counted_for_a = refl
