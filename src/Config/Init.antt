-- ===== src/Config/Init.antt =====
-- config/config.go: InitConfig and what it does when the file changes, with the first steps of main and initServer of
-- cmd/gateway/main.go. What viper makes of the file is an argument, as is whether the second decoding of a
-- reload, from viper's own instance, succeeds.
pub mod Startup
pub mod Reload
mod Tests
use mathlib.Core.Option
use mini_gateway.Common.{
  List, [], ◌∷◌, String, Bool, true, false, Option, none, some, Dict, if◌then◌else◌,
}
use mini_gateway.Config.{RoutingRules}
use mini_gateway.Config.Validate.{
  WebSocket, GrpcConfig, ConfigError, validate_websocket_config, validate_grpc_config,
  grpc_warnings,
}
use mini_gateway.Logger.{LogConfig, Logger, init, get_logger, log_times}

-- The sections that the checks and the logger read.
pub record Config : Type 0 where
  pub grpc : GrpcConfig
  pub websocket : WebSocket
  pub rules : Dict RoutingRules
  pub logger : LogConfig

-- The file cannot be read or decoded, or gives a configuration.
pub data File : Type 0 where
  unreadable malformed : File
  parsed : Config → File

-- What a change of the file does.
pub data Change : Type 0 where
  exits refused : Change
  taken : Config → Change

abbrev pub first_error : Option ConfigError → Option ConfigError → Option ConfigError
first_error none later = later
first_error (some e) later = some e

module _ (parses : String → Bool) where
  -- The first error of the two checks.
  unfoldable pub check_config : Config → Option ConfigError
  check_config cfg =
      first_error (validate_grpc_config parses cfg.grpc cfg.rules)
        (validate_websocket_config parses cfg.websocket cfg.rules)

  abbrev started : Option ConfigError → Config → Logger → Option Config × Logger
  unfolding get_logger
  started none cfg l = (some cfg, l)
  started (some e) cfg l = (none, get_logger l)

  -- `InitConfig`; `none` is an exit of the process.
  unfoldable pub init_config : File → Logger → Option Config × Logger
  unfolding check_config started log_times get_logger
  init_config unreadable l = (none, get_logger l)
  init_config malformed l = (none, get_logger l)
  init_config (parsed cfg) l =
      started (check_config cfg) cfg (log_times (grpc_warnings parses cfg.grpc cfg.rules) l)

  abbrev first_step : Option Config × Logger → Option Config × Logger
  unfolding init
  first_step (none, l) = (none, l)
  first_step (some cfg, l) = (some cfg, init cfg.logger l)

  -- `main` up to the first call of `initServer`, which makes the logger.
  unfoldable pub boot : File → Logger → Option Config × Logger
  unfolding init_config first_step
  boot file l = first_step (init_config file l)

  abbrev decided : Option ConfigError → Config → Change
  decided none cfg = taken cfg
  decided (some e) cfg = refused

  -- The function given to `OnConfigChange`, up to the write of the new configuration.
  unfoldable pub on_config_change : Bool → File → Change
  unfolding check_config
  on_config_change reload_ok unreadable = exits
  on_config_change reload_ok malformed = exits
  on_config_change reload_ok (parsed cfg) =
      if reload_ok then decided (check_config cfg) cfg else refused

  -- The configuration in force after a change, and after a sequence of them: `none` is an exit of the process by this
  -- function. What is done with a configuration that is taken is in Gateway.Server.
  abbrev pub after : Change → Config → Option Config
  after exits cfg = none
  after refused cfg = some cfg
  after (taken cfg') cfg = some cfg'

  abbrev pub next : Bool × File → Config → Option Config
  next (reload_ok, file) cfg = after (on_config_change reload_ok file) cfg

  unfoldable pub on_config_changes : List (Bool × File) → Config → Option Config
  unfolding Option.bind
  on_config_changes [] cfg = some cfg
  on_config_changes (change ∷ changes) cfg =
      Option.bind (next change cfg) (λ cfg'. on_config_changes changes cfg')
