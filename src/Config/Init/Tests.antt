-- ===== src/Config/Init/Tests.antt =====
-- A start with the default gRPC section, and changes of the file after it.
use mini_gateway.Common.{
  insert, ◌≡◌, refl, String, Bool, true, false, List, [], ◌∷◌, some, Dict, All, ◌↔◌,
}
use mini_gateway.Common.Int.{pos}
use mini_gateway.Config.{RoutingRules, get_grpc_rules}
use mini_gateway.Config.Validate.{
  check_prefix, check_grpc_rest, check_origins, origin_warnings, validate_grpc_config,
  validate_websocket_config, grpc_warnings,
}
use mini_gateway.Config.Init.{
  Config, File, parsed, check_config, init_config, boot, on_config_changes,
}
use mini_gateway.Config.Init.Startup.{boot-logger}
use mini_gateway.Config.Init.Reload.{IsDecoded, IsSound, on_config_changes-IsSound}
use mini_gateway.Logger.{LogConfig, unmade, default_config, init, get_logger, log_times}

abbrev debug_log : LogConfig
debug_log = record default_config { level = "debug" }

abbrev rules : Dict RoutingRules
rules =
    (
      "/hello",
      record {
        target = "g:50051";
        weight = pos 1;
        env = "stable";
        protocol = "grpc";
        health_check_path = "";
      }
          ∷ [],
    )
    ∷ []

-- With "*" among the allowed origins.
abbrev open_cfg : Config
open_cfg = record {
  grpc = record { enabled = true; prefix = "/grpc"; allowed_origins = "*" ∷ [] };
  websocket = record { enabled = false; prefix = ""; max_idle_conns = pos 0; idle_timeout = pos 0 };
  rules = rules;
  logger = debug_log;
}

-- No path has a gRPC rule.
abbrev bad_cfg : Config
bad_cfg = record open_cfg { rules = [] }

abbrev parses : String → Bool
parses s = true

boot-logger_example : (boot parses (parsed open_cfg) unmade).1.instance ≡ some default_config
unfolding boot init_config check_config validate_grpc_config validate_websocket_config check_prefix
    check_grpc_rest check_origins grpc_warnings origin_warnings get_grpc_rules log_times get_logger
    init insert
boot-logger_example =
    boot-logger parses (parsed open_cfg) open_cfg (boot parses (parsed open_cfg) unmade).1 refl

abbrev changes : List (Bool × File)
changes = (true, parsed bad_cfg) ∷ (false, parsed open_cfg) ∷ (true, parsed open_cfg) ∷ []

on_config_changes-IsSound_example :
    ((cfg' : Config) × ((on_config_changes parses changes open_cfg ≡ some cfg')
        × IsSound parses cfg'))
    ↔ All (λ change. IsDecoded change.1) changes
unfolding boot init_config check_config validate_grpc_config validate_websocket_config check_prefix
    check_grpc_rest check_origins grpc_warnings origin_warnings get_grpc_rules log_times get_logger
    init insert
on_config_changes-IsSound_example =
    on_config_changes-IsSound parses (parsed open_cfg) open_cfg changes refl
