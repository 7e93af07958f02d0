-- ===== src/Gateway/Server/Exits.antt =====
-- When the process exits over its configuration.
use mini_gateway.Common.{
  none-ne-some, true-ne-false, ◌<◌, ◌≡◌, ◌⊎◌, ◌↔◌, inl, inr, true, false, List, [], ◌∷◌, none, some,
  All, length, Option-cases, Bool-cases, eq_iff, str_eq, refl, sym, ap, ◌∙◌, arith,
}
use mini_gateway.Gateway.Server.{
  Config, Call, use_handler, token_bucket, leaky_bucket, Server, with_limiter, validate_config,
  limiter_calls, middleware_calls, refresh_all, run,
}
use mini_gateway.Router.Setup.Engines.{IsServed, validate_rules_iff}
use mini_gateway.Gateway.Server.Served.{
  accepted, built_calls, built_calls-some, with_engine, first_server, refresh_all-some,
  refresh_all-none, run-some, run-exits,
}

-- There is something to route to.
abbrev pub HasRoutes : Config → Type 0
HasRoutes cfg = (cfg.load_balancer ≡ "consul") ⊎ (0 < length cfg.rules)

-- The rate limit is off, or its algorithm is one of the two.
abbrev pub LimiterIsKnown : Config → Type 0
LimiterIsKnown cfg =
    (cfg.middleware.rate_limit ≡ false)
    ⊎ (cfg.algorithm ≡ "token_bucket")
    ⊎ (cfg.algorithm ≡ "leaky_bucket")

-- Every route has an endpoint for gRPC or a path that the engine serves.
abbrev pub RoutesFit : Config → Type 0
RoutesFit cfg = All (λ e. All (IsServed cfg.engine e.0) e.1) cfg.rules

abbrev pub CanSetUp : Config → Type 0
CanSetUp cfg = LimiterIsKnown cfg × RoutesFit cfg

validate_config_iff : (cfg : Config) → (validate_config cfg ≡ true) ↔ HasRoutes cfg
unfolding validate_config
validate_config_iff cfg = (
  λ ok. elim (Bool-cases (str_eq cfg.load_balancer "consul")) [
    | inl e ↦ inl ((eq_iff cfg.load_balancer "consul").0 e)
    | inr e ↦ inr (ground arith)
  ],
  λ h. elim h [
    | inl e ↦ rw e refl
    | inr some_route ↦ elim (Bool-cases (str_eq cfg.load_balancer "consul")) [
      | inl e ↦ rw e refl
      | inr e ↦ ground arith
    ]
  ],
)

token_other :
    (cfg : Config) → cfg.algorithm ≡ "leaky_bucket" → str_eq cfg.algorithm "token_bucket" ≡ false
token_other cfg leaky = rw leaky refl

limiter_some : (cfg : Config) → LimiterIsKnown cfg → (l : List Call) × (limiter_calls cfg ≡ some l)
unfolding limiter_calls
limiter_some cfg h = elim (Bool-cases cfg.middleware.rate_limit) [
  | inr off ↦ ([], ground (arith, off))
  | inl on ↦ elim h [
    | inl off ↦ absurd (true-ne-false (sym on ∙ off))
    | inr (inl token) ↦ (
      use_handler token_bucket ∷ [],
      ground (arith, on, token, eq_iff cfg.algorithm "token_bucket"),
    )
    | inr (inr leaky) ↦ (
      use_handler leaky_bucket ∷ [],
      ground (arith, on, leaky, eq_iff cfg.algorithm "leaky_bucket", token_other cfg leaky),
    )
  ]
]

limiter_known : (cfg : Config) (l : List Call) → limiter_calls cfg ≡ some l → LimiterIsKnown cfg
unfolding limiter_calls
limiter_known cfg l h = elim (Bool-cases cfg.middleware.rate_limit) [
  | inr off ↦ inl off
  | inl on ↦ elim (Bool-cases (str_eq cfg.algorithm "token_bucket")) [
    | inl token ↦ inr (inl ((eq_iff cfg.algorithm "token_bucket").0 token))
    | inr other ↦ elim (Bool-cases (str_eq cfg.algorithm "leaky_bucket")) [
      | inl leaky ↦ inr (inr ((eq_iff cfg.algorithm "leaky_bucket").0 leaky))
      | inr unknown ↦ absurd (ground (arith, on, other, unknown, h))
    ]
  ]
]

no_limiter : (cfg : Config) → limiter_calls cfg ≡ none → middleware_calls cfg ≡ none
unfolding middleware_calls
no_limiter cfg e = rw e refl

middleware_calls_iff :
    (cfg : Config)
    → ((calls : List Call) × (middleware_calls cfg ≡ some calls)) ↔ LimiterIsKnown cfg
unfolding middleware_calls
middleware_calls_iff cfg = (
  λ r. elim (Option-cases (limiter_calls cfg)) [
    | inl exits ↦ absurd (none-ne-some (sym (no_limiter cfg exits) ∙ r.1))
    | inr (l, known) ↦ limiter_known cfg l known
  ],
  λ h. (let (l, e) = limiter_some cfg h in (_, ap (with_limiter cfg) e)),
)

built_calls_iff :
    (cfg : Config) → ((calls : List Call) × (built_calls cfg ≡ some calls)) ↔ CanSetUp cfg
built_calls_iff cfg = (
  λ r.
      let (known, fits) = built_calls-some cfg r.0 r.1 in
      ((middleware_calls_iff cfg).0 (r.0, known), (validate_rules_iff cfg.engine cfg.rules).0 fits),
  λ h.
      let (calls, known) = (middleware_calls_iff cfg).1 h.0 in
      let fits = (validate_rules_iff cfg.engine cfg.rules).1 h.1 in
      (calls, ap (λ b. accepted b (middleware_calls cfg)) fits ∙ known),
)

refresh_all_iff :
    (cfgs : List Config) (s : Server)
    → ((t : Server) × (refresh_all cfgs s ≡ some t)) ↔ All CanSetUp cfgs
unfolding refresh_all
refresh_all_iff [] s = (λ c. tt, λ h. (s, refl))
refresh_all_iff (cfg ∷ cfgs) s = elim (Option-cases (built_calls cfg)) [
  | inl exits ↦ (
    λ r. absurd (none-ne-some (sym (refresh_all-none cfg cfgs s exits) ∙ r.1)),
    λ h. absurd (none-ne-some (sym exits ∙ ((built_calls_iff cfg).1 h.0).1)),
  )
  | inr (calls, known) ↦
      let same = refresh_all-some cfg cfgs s calls known in
      let rest = refresh_all_iff cfgs (with_engine cfg calls s) in
      (
        λ r. ((built_calls_iff cfg).0 (calls, known), rest.0 (r.0, sym same ∙ r.1)),
        λ h. (let (t, e) = rest.1 h.1 in (t, same ∙ e)),
      )
]

-- After a start and some later configurations, none of the three exits over a configuration (in validateConfig,
-- in the switch over the limiter's algorithm and in validateRules) has been taken exactly when the first one has
-- routes, or Consul as its balancer, and each of them has no rate limit or names one of the two algorithms, and has
-- only endpoints that are for gRPC, have a path without a special character or have an engine "trie-regexp" or "regexp".
pub run_iff :
    (cfg : Config) (cfgs : List Config)
    → ((t : Server) × (run cfg cfgs ≡ some t)) ↔ (HasRoutes cfg × All CanSetUp (cfg ∷ cfgs))
run_iff cfg cfgs = elim (Bool-cases (validate_config cfg)) [
  | inl ok ↦ elim (Option-cases (built_calls cfg)) [
    | inl exits ↦ (
      λ r. absurd (none-ne-some (sym (run-exits cfg cfgs (inr exits)) ∙ r.1)),
      λ h. absurd (none-ne-some (sym exits ∙ ((built_calls_iff cfg).1 h.1.0).1)),
    )
    | inr (calls, known) ↦
        let same = run-some cfg cfgs calls ok known in
        let rest = refresh_all_iff cfgs (first_server cfg calls) in
        (
          λ r. (
            (validate_config_iff cfg).0 ok,
            ((built_calls_iff cfg).0 (calls, known), rest.0 (r.0, sym same ∙ r.1)),
          ),
          λ h. (let (t, e) = rest.1 h.1.1 in (t, same ∙ e)),
        )
  ]
  | inr bad ↦ (
    λ r. absurd (none-ne-some (sym (run-exits cfg cfgs (inl bad)) ∙ r.1)),
    λ h. absurd (true-ne-false (sym ((validate_config_iff cfg).1 h.0) ∙ bad)),
  )
]
