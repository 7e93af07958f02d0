-- ===== src/Config/Init/Startup.antt =====
-- Which configuration the logger has once the gateway has started.
use mini_gateway.Common.{
  ℕ, zero, suc, ◌≡◌, refl, sym, ap, ◌∙◌, arith, String, Bool, true, ◌&&◌, any, ltb, Option, none,
  some, none-ne-some, some-injective, subst, Bool-cases, Option-cases, inl, inr, str_eq,
  if◌then◌else◌,
}
use mini_gateway.Config.Validate.{
  validate_websocket_config, validate_grpc_config, ConfigError, grpc_warnings,
}
use mini_gateway.Config.Validate.Warns.{grpc_warnings_lem}
use mini_gateway.Config.Init.{
  Config, File, parsed, unreadable, malformed, first_error, check_config, started, init_config,
  first_step, boot,
}
use mini_gateway.Logger.{LogConfig, Logger, unmade, init, default_config, get_logger, log_times}

-- A logger that is made stays as it is.
log_times-made : (n : ℕ) (l : Logger) (cfg : LogConfig) → l.instance ≡ some cfg → log_times n l ≡ l
unfolding log_times get_logger
log_times-made zero l cfg e = refl
log_times-made (suc n) l cfg e =
    let same : get_logger l ≡ l = rw e refl in ap (log_times n) same ∙ log_times-made n l cfg e

ltb-suc : (n : ℕ) → ltb 0 (suc n) ≡ true
ltb-suc n = ground arith

log_times-unmade :
    (n : ℕ)
    → log_times n unmade
      ≡ (if ltb 0 n then record { instance = some default_config; is_done = true } else unmade)
unfolding log_times get_logger init
log_times-unmade zero = refl
log_times-unmade (suc n) =
    log_times-made n (record { instance = some default_config; is_done = true }) default_config refl
    ∙ (rw (ltb-suc n) refl)

first_error-none :
    (first later : Option ConfigError)
    → first_error first later ≡ none
    → (first ≡ none) × (later ≡ none)
first_error-none none later e = (refl, e)
first_error-none (some err) later e = absurd (none-ne-some (sym e))

module _ (parses : String → Bool) where
  pub check_config-none :
      (cfg : Config)
      → check_config parses cfg ≡ none
      → (validate_grpc_config parses cfg.grpc cfg.rules ≡ none)
        × (validate_websocket_config parses cfg.websocket cfg.rules ≡ none)
  unfolding check_config
  check_config-none cfg e =
      first_error-none (validate_grpc_config parses cfg.grpc cfg.rules)
        (validate_websocket_config parses cfg.websocket cfg.rules) e

  -- The logger that `init` leaves when the configuration logged `n` messages first.
  init-log_times :
      (n : ℕ) (cfg : LogConfig)
      → (init cfg (log_times n unmade)).instance ≡ some (if ltb 0 n then default_config else cfg)
  unfolding init
  init-log_times n cfg = elim (Bool-cases (ltb 0 n)) [
    | inl t ↦ rw (log_times-unmade n, t) refl
    | inr f ↦ rw (log_times-unmade n, f) refl
  ]

  boot-parsed :
      (cfg : Config)
      → check_config parses cfg ≡ none
      → boot parses (parsed cfg) unmade
        ≡ (some cfg, init cfg.logger (log_times (grpc_warnings parses cfg.grpc cfg.rules) unmade))
  unfolding boot init_config started first_step
  boot-parsed cfg e = rw e refl

  boot-refused :
      (cfg : Config) (err : ConfigError)
      → check_config parses cfg ≡ some err
      → (boot parses (parsed cfg) unmade).0 ≡ none
  unfolding boot init_config started first_step
  boot-refused cfg err e = rw e refl

  -- A configuration that the gateway starts with was read and passed the checks.
  pub boot-check_config :
      (file : File) (cfg : Config)
      → (boot parses file unmade).0 ≡ some cfg
      → check_config parses cfg ≡ none
  unfolding boot init_config first_step
  boot-check_config unreadable cfg e = absurd (none-ne-some e)
  boot-check_config malformed cfg e = absurd (none-ne-some e)
  boot-check_config (parsed given) cfg e = elim (Option-cases (check_config parses given)) [
    | inr (err, s) ↦ absurd (none-ne-some (sym (boot-refused given err s) ∙ e))
    | inl ok ↦
        subst (λ c. check_config parses c ≡ none)
          (some-injective (sym (ap (λ p. p.0) (boot-parsed given ok)) ∙ e)) ok
  ]

  -- The configured logger is used only when nothing was logged before. When the gateway has started, its logger
  -- has the configuration of the file, but the default one if gRPC is switched on and allows all origins:
  -- the check of that section has logged a warning by then, which makes the logger.
  pub boot-logger :
      (file : File) (cfg : Config) (l : Logger)
      → boot parses file unmade ≡ (some cfg, l)
      → l.instance
        ≡ some (
            if cfg.grpc.enabled && any (λ o. str_eq o "*") cfg.grpc.allowed_origins
            then default_config
            else cfg.logger)
  unfolding boot init_config first_step
  boot-logger unreadable cfg l e = absurd (none-ne-some (ap (λ p. p.0) e))
  boot-logger malformed cfg l e = absurd (none-ne-some (ap (λ p. p.0) e))
  boot-logger (parsed given) cfg l e = elim (Option-cases (check_config parses given)) [
    | inr (err, s) ↦ absurd (none-ne-some (sym (boot-refused given err s) ∙ ap (λ p. p.0) e))
    | inl ok ↦
        let q : (
          some given,
          init given.logger (log_times (grpc_warnings parses given.grpc given.rules) unmade),
        )
            ≡ (some cfg, l) =
          sym (boot-parsed given ok) ∙ e in
        let same : given ≡ cfg = some-injective (ap (λ p. p.0) q) in
        let made : l.instance
            ≡ some (
                if cfg.grpc.enabled && any (λ o. str_eq o "*") cfg.grpc.allowed_origins
                then default_config
                else cfg.logger) =
          subst
            (λ c.
              l.instance
              ≡ some (
                  if c.grpc.enabled && any (λ o. str_eq o "*") c.grpc.allowed_origins
                  then default_config
                  else c.logger))
            same
            (sym (ap (λ p. p.1.instance) q)
              ∙ init-log_times (grpc_warnings parses given.grpc given.rules) given.logger
              ∙ ap (λ b. some (if b then default_config else given.logger))
                  (grpc_warnings_lem parses given.grpc given.rules
                    (check_config-none given ok).0)) in
        made
  ]
