-- ===== src/Health/Checker.antt =====
-- internal/core/health/health_checker.go: the health checker with the path of each of its targets, the probes, and
-- what starting it clears. The clients that a probe uses are a record of calls.
pub mod Registered
pub mod Beats
pub mod Healthy
pub mod Probed
pub mod Start
mod Tests
use mathlib.Core.Option
use Prim.Native.String.{◌++◌ as str_append}
use mini_gateway.Common.{
  ℕ, String, Bool, true, false, not, List, [], ◌∷◌, Option, none, some, Dict, lookup, insert, leb,
  str_eq, if◌then◌else◌,
}
use mini_gateway.Common.Int.{ℤ, pos, ltb_ℤ}
use mini_gateway.Config.{RoutingRule, RoutingRules}
use mini_gateway.Health.{
  Time, TargetStatus, Redis, health_stats_key, load_from_redis, modify, probed, reset_all_stats,
  refresh_targets,
}

pub record HealthChecker (S : Type 0) : Type 0 where
  pub health_paths : Dict String
  pub heartbeat_interval : ℤ
  -- The contents of Redis.
  pub store : S

-- What ends a wait of the heartbeat: its ticker, or `Close`.
pub data Beat : Type 0 where
  tick : (String → Time) → Beat
  cleaned_up : Beat

-- A HEAD request gives a status unless it fails. A gRPC check, once the target is dialled, tells whether the
-- service is serving unless it fails.
pub record Probes : Type 0 where
  pub head : String → Option ℕ
  pub grpc_dial : String → Bool
  pub grpc_check : String → String → Option Bool
  pub web_socket_dial : String → Bool

abbrev is_below_400 : Option ℕ → Bool
is_below_400 none = false
is_below_400 (some code) = not (leb 400 code)

abbrev is_serving : Option Bool → Bool
is_serving none = false
is_serving (some serving) = serving

abbrev path_or_empty : Option String → String
path_or_empty none = ""
path_or_empty (some path) = path

-- Empty for the whole server.
abbrev service_name : String → String
service_name path = if str_eq path "/health" then "" else path

-- Seconds.
abbrev pub interval_of : ℤ → ℤ
interval_of configured = if ltb_ℤ (pos 0) configured then configured else pos 30

abbrev pub health_path_of : RoutingRule → String
health_path_of rule = if str_eq rule.health_check_path "" then "/health" else rule.health_check_path

abbrev with_loaded : Option TargetStatus → List TargetStatus → List TargetStatus
with_loaded none stats = stats
with_loaded (some stat) stats = stat ∷ stats

module _ (probes : Probes) where
  abbrev check_http : String → String → Bool
  check_http target path =
      is_below_400 (probes.head (str_append "http://" (str_append target path)))

  abbrev check_grpc : Dict String → String → Bool
  unfolding lookup
  check_grpc paths target =
      let service = service_name (path_or_empty (lookup target paths)) in
      if probes.grpc_dial target then is_serving (probes.grpc_check target service) else false

  abbrev check_web_socket : String → String → Bool
  check_web_socket url path = probes.web_socket_dial (str_append url path)

  -- Whether the probe of a target succeeds; of other protocols no probe is made.
  unfoldable pub probe : Dict String → String → String → TargetStatus → Bool
  unfolding check_grpc
  probe paths target path stat =
      if str_eq stat.protocol "http"
      then check_http target path
      else if str_eq stat.protocol ""
      then check_http target path
      else if str_eq stat.protocol "grpc"
      then check_grpc paths target
      else if str_eq stat.protocol "websocket"
      then check_web_socket stat.url path
      else false

module _ (probes : Probes) {S : Type 0} (redis : Redis S) where
  -- The loop of `performHeartbeatCheck`, at the targets that are left; each has its own time.
  unfoldable pub check_each : Dict String → (String → Time) → Dict String → S → S
  unfolding modify probe probed
  check_each paths now [] s = s
  check_each paths now ((target, path) ∷ rest) s = check_each paths now rest (
      modify redis (λ stat. probed (probe probes paths target path stat) (now target) stat)
        (health_stats_key target) s)

  unfoldable pub heartbeat_check : (String → Time) → HealthChecker S → HealthChecker S
  unfolding check_each
  heartbeat_check now h = record h { store = check_each h.health_paths now h.health_paths h.store }

  -- The loop of `startHeartbeat`, and the seconds from each tick to the next.
  unfoldable pub start_heartbeat : List Beat → HealthChecker S → List ℤ × HealthChecker S
  unfolding heartbeat_check
  start_heartbeat [] h = ([], h)
  start_heartbeat (cleaned_up ∷ rest) h = ([], h)
  start_heartbeat (tick now ∷ rest) h =
      let (delays, h') = start_heartbeat rest (heartbeat_check now h) in
      (interval_of h.heartbeat_interval ∷ delays, h')

abbrev pub path_added : Option String → RoutingRule → Dict String → Dict String
path_added none rule paths = paths
path_added (some host) rule paths = insert host (health_path_of rule) paths

module _ (host_of : RoutingRule → Option String) where
  unfoldable pub paths_of_rules : RoutingRules → Dict String → Dict String
  paths_of_rules [] paths = paths
  paths_of_rules (rule ∷ rules) paths = paths_of_rules rules (path_added (host_of rule) rule paths)

  unfoldable pub paths_of : Dict RoutingRules → Dict String → Dict String
  unfolding paths_of_rules
  paths_of [] paths = paths
  paths_of ((rule_name, rules) ∷ rest) paths = paths_of rest (paths_of_rules rules paths)

module _ (host_of : RoutingRule → Option String) {S : Type 0} (redis : Redis S) where
  -- `RefreshTargets` with the rules and the interval of a configuration.
  unfoldable pub refresh_checker : Dict RoutingRules → ℤ → HealthChecker S → HealthChecker S
  unfolding paths_of refresh_targets
  refresh_checker rules interval h = record {
    health_paths = paths_of host_of rules [];
    heartbeat_interval = interval;
    store = refresh_targets redis host_of rules h.store;
  }

module _ {S : Type 0} (redis : Redis S) where
  -- The statuses that `GetAllStats` sorts.
  unfoldable pub loaded_stats : Dict String → S → List TargetStatus
  unfolding load_from_redis
  loaded_stats [] s = []
  loaded_stats ((target, path) ∷ rest) s =
      let others = loaded_stats rest s in
      with_loaded (load_from_redis redis (health_stats_key target) s) others

  -- `sort` stands for `sort.Slice` with the comparison `less`.
  unfoldable pub get_all_stats :
      (List TargetStatus → List TargetStatus) → HealthChecker S → List TargetStatus
  unfolding loaded_stats
  get_all_stats sort h = sort (loaded_stats h.health_paths h.store)
