-- ===== src/Logger.antt =====
-- pkg/logger/zap.go: the package's logger and the `sync.Once` that makes it. zap is a library: what is kept of
-- it is the configuration it was made with.
use mini_gateway.Common.{
  ℕ, zero, suc, String, Bool, true, false, Option, none, some, str_eq, if◌then◌else◌,
}
use mini_gateway.Common.Int.{ℤ, pos}

pub record LogConfig : Type 0 where
  pub level : String
  pub file_path : String
  pub max_size : ℤ
  pub max_backups : ℤ
  pub max_age : ℤ
  pub compress : Bool

pub record Logger : Type 0 where
  pub instance : Option LogConfig
  pub is_done : Bool

-- When the process starts.
abbrev pub unmade : Logger
unmade = record { instance = none; is_done = false }

unfoldable pub init : LogConfig → Logger → Logger
init cfg l = if l.is_done then l else record { instance = some cfg; is_done = true }

abbrev pub default_config : LogConfig
default_config = record {
  level = "info";
  file_path = "logs/gateway.log";
  max_size = pos 100;
  max_backups = pos 10;
  max_age = pos 30;
  compress = true;
}

abbrev made_or_init : Option LogConfig → Logger → Logger
unfolding init
made_or_init none l = init default_config l
made_or_init (some cfg) l = l

-- `GetLogger`, and each call that logs or syncs.
unfoldable pub get_logger : Logger → Logger
unfolding made_or_init
get_logger l = made_or_init l.instance l

unfoldable pub log_times : ℕ → Logger → Logger
unfolding get_logger
log_times zero l = l
log_times (suc n) l = log_times n (get_logger l)

pub data Level : Type 0 where
  debug_level info_level warn_level error_level : Level

unfoldable pub get_log_level : String → Level
get_log_level level =
    if str_eq level "debug"
    then debug_level
    else if str_eq level "info"
    then info_level
    else if str_eq level "warn"
    then warn_level
    else if str_eq level "error"
    then error_level
    else info_level

abbrev level_of : Option LogConfig → Option Level
unfolding get_log_level
level_of none = none
level_of (some cfg) = some (get_log_level cfg.level)

-- The least level that is written, once the logger is made.
unfoldable pub logged_level : Logger → Option Level
unfolding level_of
logged_level l = level_of l.instance
