-- ===== src/Config/Init/Reload.antt =====
-- Which configurations the watch of the file leaves in force.
use mathlib.Core.Option
use mini_gateway.Common.{
  ◌<◌, ◌≡◌, refl, sym, ap, subst, ◌∙◌, ◌⊎◌, ◌↔◌, String, Bool, true, false, List, [], ◌∷◌, none,
  some, none-ne-some, some-injective, Option-cases, inl, inr, length, All,
}
use mini_gateway.Common.Int.{ltb_ℤ, pos}
use mini_gateway.Config.{get_grpc_rules, get_websocket_rules}
use mini_gateway.Config.Validate.{ConfigError}
use mini_gateway.Config.Validate.Accepts.{
  IsPrefixOk, IsTargetOk, validate_grpc_config_iff, validate_websocket_config_iff,
}
use mini_gateway.Config.Init.{
  Config, File, unreadable, malformed, parsed, refused, taken, check_config, boot, on_config_change,
  after, next, on_config_changes,
}
use mini_gateway.Config.Init.Startup.{check_config-none, boot-check_config}
use mini_gateway.Logger.{unmade}

abbrev pub IsDecoded : File → Type 0
IsDecoded unreadable = ⊥
IsDecoded malformed = ⊥
IsDecoded (parsed cfg) = Unit

module _ (parses : String → Bool) where
  -- What the two checks demand of a configuration.
  pub IsSound : Config → Type 0
  IsSound cfg =
      (cfg.grpc.enabled ≡ true
        → IsPrefixOk cfg.grpc.prefix
          × ((0 < length (get_grpc_rules cfg.rules))
              × All (λ o. (o ≡ "*") ⊎ (parses o ≡ true)) cfg.grpc.allowed_origins))
      × (cfg.websocket.enabled ≡ true
          → IsPrefixOk cfg.websocket.prefix
            × ((0 < length (get_websocket_rules cfg.rules))
                × (ltb_ℤ cfg.websocket.max_idle_conns (pos 0) ≡ false)
                × (ltb_ℤ (pos 0) cfg.websocket.idle_timeout ≡ true)
                × All (λ e. All (IsTargetOk parses) e.1) (get_websocket_rules cfg.rules)))

  check_config-IsSound : (cfg : Config) → check_config parses cfg ≡ none → IsSound cfg
  unfolding IsSound
  check_config-IsSound cfg e =
      let (grpc_ok, websocket_ok) = check_config-none parses cfg e in
      (
        λ on. (validate_grpc_config_iff parses cfg.grpc cfg.rules on).0 grpc_ok,
        λ on. (validate_websocket_config_iff parses cfg.websocket cfg.rules on).0 websocket_ok,
      )

  on_config_change-taken :
      (given : Config)
      → check_config parses given ≡ none
      → on_config_change parses true (parsed given) ≡ taken given
  unfolding on_config_change
  on_config_change-taken given e = rw e refl

  on_config_change-refused :
      (given : Config) (err : ConfigError)
      → check_config parses given ≡ some err
      → on_config_change parses true (parsed given) ≡ refused
  unfolding on_config_change
  on_config_change-refused given err e = rw e refl

  -- A change that leaves the process running leaves a configuration that passes the checks.
  next-check_config :
      (reload_ok : Bool) (file : File) (cfg cfg' : Config)
      → check_config parses cfg ≡ none
      → next parses (reload_ok, file) cfg ≡ some cfg'
      → check_config parses cfg' ≡ none
  unfolding on_config_change
  next-check_config reload_ok unreadable cfg cfg' ok e = absurd (none-ne-some e)
  next-check_config reload_ok malformed cfg cfg' ok e = absurd (none-ne-some e)
  next-check_config false (parsed given) cfg cfg' ok e =
      subst (λ c. check_config parses c ≡ none) (some-injective e) ok
  next-check_config true (parsed given) cfg cfg' ok e =
      elim (Option-cases (check_config parses given)) [
        | inl good ↦
            subst (λ c. check_config parses c ≡ none)
              (some-injective (
                sym (ap (λ change. after parses change cfg) (on_config_change-taken given good))
                ∙ e))
              good
        | inr (err, bad) ↦
            subst (λ c. check_config parses c ≡ none)
              (some-injective (
                sym
                  (ap (λ change. after parses change cfg) (on_config_change-refused given err bad))
                ∙ e))
              ok
      ]

  next-IsDecoded :
      (reload_ok : Bool) (file : File) (cfg : Config)
      → IsDecoded file
      → (cfg' : Config) × (next parses (reload_ok, file) cfg ≡ some cfg')
  unfolding on_config_change
  next-IsDecoded reload_ok unreadable cfg h = absurd h
  next-IsDecoded reload_ok malformed cfg h = absurd h
  next-IsDecoded false (parsed given) cfg h = (cfg, refl)
  next-IsDecoded true (parsed given) cfg h = elim (Option-cases (check_config parses given)) [
    | inl good ↦ (given, rw (on_config_change-taken given good) refl)
    | inr (err, bad) ↦ (cfg, rw (on_config_change-refused given err bad) refl)
  ]

  next-decodes :
      (reload_ok : Bool) (file : File) (cfg cfg' : Config)
      → next parses (reload_ok, file) cfg ≡ some cfg'
      → IsDecoded file
  unfolding on_config_change
  next-decodes reload_ok unreadable cfg cfg' e = absurd (none-ne-some e)
  next-decodes reload_ok malformed cfg cfg' e = absurd (none-ne-some e)
  next-decodes reload_ok (parsed given) cfg cfg' e = tt

  on_config_changes-check_config :
      (changes : List (Bool × File)) (cfg : Config)
      → check_config parses cfg ≡ none
      → All (λ change. IsDecoded change.1) changes
      → (cfg' : Config) × ((on_config_changes parses changes cfg ≡ some cfg')
          × (check_config parses cfg' ≡ none))
  unfolding on_config_changes Option.bind
  on_config_changes-check_config [] cfg ok h = (cfg, (refl, ok))
  on_config_changes-check_config ((reload_ok, file) ∷ changes) cfg ok (here, there) =
      let (middle, e) = next-IsDecoded reload_ok file cfg here in
      let (last, (e', ok')) =
        on_config_changes-check_config changes middle
          (next-check_config reload_ok file cfg middle ok e) there in
      (last, (rw e e', ok'))

  on_config_changes-decodes :
      (changes : List (Bool × File)) (cfg cfg' : Config)
      → on_config_changes parses changes cfg ≡ some cfg'
      → All (λ change. IsDecoded change.1) changes
  unfolding on_config_changes Option.bind
  on_config_changes-decodes [] cfg cfg' e = tt
  on_config_changes-decodes ((reload_ok, file) ∷ changes) cfg cfg' e =
      elim (Option-cases (next parses (reload_ok, file) cfg)) [
        | inl gone ↦ absurd (
            none-ne-some
              (sym (ap (λ o. Option.bind o (on_config_changes parses changes)) gone) ∙ e))
        | inr (middle, s) ↦ (
          next-decodes reload_ok file cfg middle s,
          on_config_changes-decodes changes middle cfg'
              (sym (ap (λ o. Option.bind o (on_config_changes parses changes)) s) ∙ e),
        )
      ]

  -- The function that is called when the file changes, from a configuration that the gateway has started with, and only
  -- this function: no call of it ends the process over a sequence of changes exactly when every version of the
  -- file can be read and decoded. The configuration that it leaves in force then meets what the checks demand of
  -- both sections, whatever those versions said.
  pub on_config_changes-IsSound :
      (file : File) (cfg : Config) (changes : List (Bool × File))
      → (boot parses file unmade).0 ≡ some cfg
      → ((cfg' : Config) × ((on_config_changes parses changes cfg ≡ some cfg') × IsSound cfg'))
        ↔ All (λ change. IsDecoded change.1) changes
  on_config_changes-IsSound file cfg changes started = (
    λ (cfg', (e, h)). on_config_changes-decodes changes cfg cfg' e,
    λ h.
        let (cfg', (e, ok)) =
          on_config_changes-check_config changes cfg (boot-check_config parses file cfg started)
            h in
        (cfg', (e, check_config-IsSound cfg' ok)),
  )
