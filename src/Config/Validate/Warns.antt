-- ===== src/Config/Validate/Warns.antt =====
-- What the check of the gRPC section logs when the section passes.
use mini_gateway.Common.{
  ◌≡◌, refl, arith, String, Bool, ◌&&◌, List, [], ◌∷◌, none, Dict, any, str_eq, Bool-cases, inl,
  inr, ltb,
}
use mini_gateway.Config.{RoutingRules}
use mini_gateway.Config.Validate.{
  GrpcConfig, check_prefix, check_origins, check_grpc_rest, validate_grpc_config, origin_warnings,
  grpc_warnings,
}

module _ (parses : String → Bool) where
  origin_warnings_lem :
      (origins : List String)
      → check_origins parses origins ≡ none
      → ltb 0 (origin_warnings parses origins) ≡ any (λ o. str_eq o "*") origins
  unfolding origin_warnings check_origins
  origin_warnings_lem [] e = refl
  origin_warnings_lem (o ∷ os) e = elim (Bool-cases (str_eq o "*")) [
    | inl all ↦ rw all (ground arith)
    | inr one ↦ elim (Bool-cases (parses o)) [
      | inl good ↦ rw (one, good) (origin_warnings_lem os (ground (arith, e, one, good)))
      | inr bad ↦ ground (arith, e, one, bad)
    ]
  ]

  -- A gRPC section that passes logs a warning exactly when it is switched on and allows all origins.
  pub grpc_warnings_lem :
      (grpc : GrpcConfig) (rules : Dict RoutingRules)
      → validate_grpc_config parses grpc rules ≡ none
      → ltb 0 (grpc_warnings parses grpc rules)
        ≡ (grpc.enabled && any (λ o. str_eq o "*") grpc.allowed_origins)
  unfolding validate_grpc_config grpc_warnings check_prefix check_grpc_rest
  grpc_warnings_lem grpc rules e = ground (arith, e, origin_warnings_lem grpc.allowed_origins)
