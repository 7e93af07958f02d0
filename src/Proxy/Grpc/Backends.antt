-- ===== src/Proxy/Grpc/Backends.antt =====
-- Which backend a request on a gRPC route reaches. The handlers of all the rules are registered in one mux.
use mini_gateway.Common.{
  ◌≡◌, refl, sym, ◌∙◌, String, Bool, true, [], ◌∷◌, Option, none, some, Dict, str_eq, Bool-cases,
  inl, inr,
}
use mini_gateway.Config.{RoutingRule, RoutingRules, get_grpc_rules}
use mini_gateway.Proxy.Grpc.{
  Mux, Request, registered, kept_or, setup_rule, setup_rules, setup_each, setup_grpc_proxy, handle,
  adjusted_path,
}

-- What grpc-gateway does: a mux has no handlers at first, and a handler that is registered later for the
-- same patterns comes before the earlier ones. The patterns are those of the one service, for every
-- connection.
pub record IsMux {C M : Type 0} (mux : Mux C M) : Type 0 where
  pub is_served : String → Bool
  pub new-backend : (path : String) → mux.backend mux.new path ≡ none
  pub register-backend :
      (m m' : M) (conn : C)
      → mux.register m conn ≡ some m'
      → (path : String) → is_served path ≡ true
      → mux.backend m' path ≡ some conn

module _ {C M : Type 0} (mux : Mux C M) (dial : String → Option C) (law : IsMux mux) where
  -- One connection for every path of the service.
  abbrev AllReach : M → Option C → Type 0
  AllReach m o = (path : String) → law.is_served path ≡ true → mux.backend m path ≡ o

  -- The rule that was registered last: none, or one whose dial gave the connection.
  abbrev OneBackend : M → Type 0
  OneBackend m = (o : Option C) × AllReach m o

  kept_or-OneBackend :
      (m : M) (conn : C) (o : Option M)
      → mux.register m conn ≡ o
      → OneBackend m
      → OneBackend (kept_or m o)
  kept_or-OneBackend m conn none e one = one
  kept_or-OneBackend m conn (some m') e one = (some conn, law.register-backend m m' conn e)

  registered-OneBackend :
      (m : M) (dialed : Option C) → OneBackend m → OneBackend (registered mux dial m dialed)
  registered-OneBackend m none one = one
  registered-OneBackend m (some conn) one = kept_or-OneBackend m conn (mux.register m conn) refl one

  setup_rule-OneBackend :
      (rule : RoutingRule) (m : M) → OneBackend m → OneBackend (setup_rule mux dial rule m)
  unfolding setup_rule
  setup_rule-OneBackend rule m one = elim (Bool-cases (str_eq rule.protocol "grpc")) [
    | inl e ↦ rw e (registered-OneBackend m (dial rule.target) one)
    | inr e ↦ rw e one
  ]

  setup_rules-OneBackend :
      (rules : RoutingRules) (m : M) → OneBackend m → OneBackend (setup_rules mux dial rules m)
  unfolding setup_rules
  setup_rules-OneBackend [] m one = one
  setup_rules-OneBackend (rule ∷ rules) m one =
      setup_rules-OneBackend rules (setup_rule mux dial rule m) (setup_rule-OneBackend rule m one)

  setup_each-OneBackend :
      (routes : Dict RoutingRules) (m : M)
      → OneBackend m
      → OneBackend (setup_each mux dial routes m)
  unfolding setup_each
  setup_each-OneBackend [] m one = one
  setup_each-OneBackend (route ∷ routes) m one =
      setup_each-OneBackend routes (setup_rules mux dial route.1 m)
        (setup_rules-OneBackend route.1 m one)

  -- All gRPC routes reach one backend: any two requests whose paths, without the prefix, are paths of the
  -- service are sent over the same connection, on whatever routes they came and whatever targets
  -- those have.
  pub handle-one_backend :
      (prefix : String) (rules : Dict RoutingRules) (r s : Request)
      → law.is_served (adjusted_path prefix r.path) ≡ true
      → law.is_served (adjusted_path prefix s.path) ≡ true
      → (handle mux dial prefix rules r).connection ≡ (handle mux dial prefix rules s).connection
  unfolding handle setup_grpc_proxy
  handle-one_backend prefix rules r s served_r served_s =
      let (o, reach) =
        setup_each-OneBackend (get_grpc_rules rules) mux.new
          (none, λ path e. law.new-backend path) in
      reach (adjusted_path prefix r.path) served_r
      ∙ sym (reach (adjusted_path prefix s.path) served_s)
