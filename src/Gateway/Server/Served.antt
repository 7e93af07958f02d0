-- ===== src/Gateway/Server/Served.antt =====
-- Which engine serves after new configurations, and when the process exits.
use mini_gateway.Common.{
  none-ne-some, ℕ, ◌<◌, ◌≡◌, ◌⊎◌, inl, inr, Bool, true, false, List, [], ◌∷◌, ◌++◌, Option, none,
  some, length, get_elem?, get_elem?-append_left, length-append, Option-cases, Bool-cases, refl,
  sym, ap, subst, ◌∙◌, arith,
}
use mini_gateway.LoadBalancer.Factory.{Balancer, init_load_balancer}
use mini_gateway.Router.Setup.{validate_rules}
use mini_gateway.Gateway.Server.{
  Config, Call, Server, setup_gin_router, validate_config, middleware_calls, route_calls, call_on,
  setup_middleware, setup_routes, with_routes, init_server, start, refresh_config, refresh_all, run,
}

call_on-last :
    (es : List (List Call)) (e calls : List Call)
    → call_on (length es) calls (es ++ e ∷ []) ≡ es ++ (e ++ calls) ∷ []
unfolding call_on
call_on-last [] e calls = refl
call_on-last (x ∷ es) e calls = ap (◌∷◌ x) (call_on-last es e calls)

-- The server after a set-up with these calls.
abbrev pub with_engine : Config → List Call → Server → Server
with_engine cfg calls s = record s {
  engines = s.engines ++ (calls ++ route_calls cfg) ∷ [];
  router = length s.engines;
  balancer = init_load_balancer cfg.consul_client cfg.load_balancer cfg.rules;
  health_rules = cfg.rules;
}

-- The calls of `setupMiddleware`, if the routes fit the engine.
abbrev pub accepted : Bool → Option (List Call) → Option (List Call)
accepted true calls = calls
accepted false calls = none

abbrev pub built_calls : Config → Option (List Call)
built_calls cfg = accepted (validate_rules cfg.engine cfg.rules) (middleware_calls cfg)

pub built_calls-some :
    (cfg : Config) (calls : List Call)
    → built_calls cfg ≡ some calls
    → (middleware_calls cfg ≡ some calls) × (validate_rules cfg.engine cfg.rules ≡ true)
built_calls-some cfg calls e = elim (Bool-cases (validate_rules cfg.engine cfg.rules)) [
  | inl fits ↦ (rw fits at e, fits)
  | inr misfit ↦
      absurd (none-ne-some (sym (ap (λ b. accepted b (middleware_calls cfg)) misfit) ∙ e))
]

set_up_some :
    (cfg : Config) (s : Server) (calls : List Call)
    → built_calls cfg ≡ some calls
    → refresh_config cfg s ≡ some (with_engine cfg calls s)
unfolding refresh_config setup_middleware setup_routes with_routes
set_up_some cfg s calls e =
    let (known, fits) = built_calls-some cfg calls e in rw (known, fits, call_on-last) refl

set_up_none : (cfg : Config) (s : Server) → built_calls cfg ≡ none → refresh_config cfg s ≡ none
unfolding refresh_config setup_middleware setup_routes with_routes
set_up_none cfg s e = elim (Option-cases (middleware_calls cfg)) [
  | inl exits ↦ rw exits refl
  | inr (calls, known) ↦ elim (Bool-cases (validate_rules cfg.engine cfg.rules)) [
    | inl fits ↦
        absurd (none-ne-some (sym e ∙ ap (λ b. accepted b (middleware_calls cfg)) fits ∙ known))
    | inr misfit ↦ rw (known, misfit) refl
  ]
]

abbrev pub last_of : Config → List Config → Config
last_of cfg [] = cfg
last_of cfg (c ∷ cfgs) = last_of c cfgs

abbrev pub engine_of : Option ℕ → List (List Call) → Option (List Call)
engine_of none engines = none
engine_of (some i) engines = get_elem? engines i

-- The calls that were made on the engine that serves.
abbrev pub listening_calls : Server → Option (List Call)
listening_calls s = engine_of s.listening s.engines

abbrev pub balancer_for : Config → Balancer
balancer_for cfg = init_load_balancer cfg.consul_client cfg.load_balancer cfg.rules

-- It serves what `calls` built, with the balancer of `cfg`.
record IsServing (calls : List Call) (cfg : Config) (s : Server) : Type 0 where
  index : ℕ
  on : s.listening ≡ some index
  inside : index < length s.engines
  built : get_elem? s.engines index ≡ some calls
  balanced : s.balancer ≡ balancer_for cfg
  checked : s.health_rules ≡ cfg.rules

with_engine-IsServing :
    (calls more : List Call) (old cfg : Config) (s : Server)
    → IsServing calls old s
    → IsServing calls cfg (with_engine cfg more s)
with_engine-IsServing calls more old cfg s v = record {
  index = v.index;
  on = v.on;
  inside = omega (arith, v.inside, length-append s.engines ((more ++ route_calls cfg) ∷ []));
  built = get_elem?-append_left s.engines _ v.index v.inside ∙ v.built;
  balanced = refl;
  checked = refl;
}

pub refresh_all-some :
    (cfg : Config) (cfgs : List Config) (s : Server) (more : List Call)
    → built_calls cfg ≡ some more
    → refresh_all (cfg ∷ cfgs) s ≡ refresh_all cfgs (with_engine cfg more s)
unfolding refresh_all
refresh_all-some cfg cfgs s more e = rw (set_up_some cfg s more e) refl

pub refresh_all-none :
    (cfg : Config) (cfgs : List Config) (s : Server)
    → built_calls cfg ≡ none
    → refresh_all (cfg ∷ cfgs) s ≡ none
unfolding refresh_all
refresh_all-none cfg cfgs s e = rw (set_up_none cfg s e) refl

-- The server that starts to listen.
abbrev pub first_server : Config → List Call → Server
first_server cfg calls = record {
  engines = setup_gin_router ∷ (calls ++ route_calls cfg) ∷ [];
  router = 1;
  listening = some 1;
  balancer = balancer_for cfg;
  health_rules = cfg.rules;
}

pub run-some :
    (cfg : Config) (cfgs : List Config) (calls : List Call)
    → validate_config cfg ≡ true
    → built_calls cfg ≡ some calls
    → run cfg cfgs ≡ refresh_all cfgs (first_server cfg calls)
unfolding run init_server start setup_middleware setup_routes call_on
run-some cfg cfgs calls ok e =
    let (known, fits) = built_calls-some cfg calls e in rw (ok, known, fits) refl

pub run-exits :
    (cfg : Config) (cfgs : List Config)
    → (validate_config cfg ≡ false) ⊎ (built_calls cfg ≡ none)
    → run cfg cfgs ≡ none
unfolding run init_server setup_middleware setup_routes with_routes
run-exits cfg cfgs (inl bad) = rw bad refl
run-exits cfg cfgs (inr e) = elim (Bool-cases (validate_config cfg)) [
  | inl ok ↦ elim (Option-cases (middleware_calls cfg)) [
    | inl exits ↦ rw (ok, exits) refl
    | inr (calls, known) ↦ elim (Bool-cases (validate_rules cfg.engine cfg.rules)) [
      | inl fits ↦
          absurd (none-ne-some (sym e ∙ ap (λ b. accepted b (middleware_calls cfg)) fits ∙ known))
      | inr misfit ↦ rw (ok, known, misfit) refl
    ]
  ]
  | inr bad ↦ rw bad refl
]

refresh_all-IsServing :
    (calls : List Call) (old : Config) (cfgs : List Config) (s t : Server)
    → IsServing calls old s
    → refresh_all cfgs s ≡ some t
    → IsServing calls (last_of old cfgs) t
unfolding refresh_all
refresh_all-IsServing calls old [] s t v e = subst (IsServing calls old) (ground (arith, e)) v
refresh_all-IsServing calls old (cfg ∷ cfgs) s t v e = elim (Option-cases (built_calls cfg)) [
  | inl exits ↦ absurd (none-ne-some (sym (refresh_all-none cfg cfgs s exits) ∙ e))
  | inr (more, known) ↦
      refresh_all-IsServing calls cfg cfgs (with_engine cfg more s) t
        (with_engine-IsServing calls more old cfg s v)
        (sym (refresh_all-some cfg cfgs s more known) ∙ e)
]

first_server-IsServing :
    (cfg : Config) (calls : List Call)
    → IsServing (calls ++ route_calls cfg) cfg (first_server cfg calls)
first_server-IsServing cfg calls = record {
  index = 1;
  on = refl;
  inside = omega arith;
  built = refl;
  balanced = refl;
  checked = refl;
}

-- A configuration that comes after the start does not reach the served routes: while the process runs,
-- whatever configurations have come, the engine that serves is the one with the middleware and the
-- routes of the first configuration, although the balancer and the checked targets are those of the
-- last one.
pub run-listening :
    (cfg : Config) (cfgs : List Config) (t : Server)
    → run cfg cfgs ≡ some t
    → (calls : List Call) × (middleware_calls cfg ≡ some calls)
      × (listening_calls t ≡ some (calls ++ route_calls cfg))
      × (t.balancer ≡ balancer_for (last_of cfg cfgs))
      × (t.health_rules ≡ (last_of cfg cfgs).rules)
run-listening cfg cfgs t e = elim (Bool-cases (validate_config cfg)) [
  | inl ok ↦ elim (Option-cases (built_calls cfg)) [
    | inl exits ↦ absurd (none-ne-some (sym (run-exits cfg cfgs (inr exits)) ∙ e))
    | inr (calls, known) ↦
        let v =
          refresh_all-IsServing (calls ++ route_calls cfg) cfg cfgs (first_server cfg calls) t
            (first_server-IsServing cfg calls) (sym (run-some cfg cfgs calls ok known) ∙ e) in
        (calls, (built_calls-some cfg calls known).0, rw v.on v.built, v.balanced, v.checked)
  ]
  | inr bad ↦ absurd (none-ne-some (sym (run-exits cfg cfgs (inl bad)) ∙ e))
]
