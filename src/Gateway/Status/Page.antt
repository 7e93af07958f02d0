-- ===== src/Gateway/Status/Page.antt =====
-- cmd/gateway/main.go: handleStatus and getPluginStatus. The page has further parts that only print the configuration and
-- what the runtime says of the process.
pub mod Reset
mod Tests
use mini_gateway.Common.{
  String, Bool, true, false, List, map, Option, none, some, Dict, Outcome, returns, ◌>>=◌,
  if◌then◌else◌,
}
use mini_gateway.Common.Int.{ℤ}
use mini_gateway.Config.{RoutingRules}
use mini_gateway.Cache.Client.{Commands}
use mini_gateway.Health.{TargetStatus, Redis, reset_all_stats}
use mini_gateway.Health.Checker.{HealthChecker, get_all_stats}
use mini_gateway.Plugins.{Plugin, Loader, get_loaded_plugins}
use mini_gateway.Gateway.Status.{get_cached_path_stats}

pub record PluginStatus : Type 0 where
  pub plugin : Plugin
  pub enabled : Bool

-- `sort` stands for `sort.Slice` by the name.
unfoldable pub get_plugin_status :
    (Dict Plugin → Dict Plugin)
    → (List PluginStatus → List PluginStatus)
    → Loader
    → List PluginStatus
unfolding get_loaded_plugins
get_plugin_status range sort l =
    sort (map (λ p. record { plugin = p; enabled = true }) (get_loaded_plugins range l))

pub record StatusPage : Type 0 where
  pub backend_stats : List TargetStatus
  pub cached_stats : Dict ℤ
  pub plugins : List PluginStatus

-- Status 400, or the page.
pub data StatusAnswer : Type 0 where
  bad_request : StatusAnswer
  page : StatusPage → StatusAnswer

module _ {S : Type 0} (redis : Redis S) (client : Option (Commands S))
    (parse_int : String → Option ℤ) (sort_stats : List TargetStatus → List TargetStatus)
    (range : Dict Plugin → Dict Plugin) (sort_plugins : List PluginStatus → List PluginStatus) where
  unfoldable pub reset_checker : Bool → HealthChecker S → HealthChecker S
  unfolding reset_all_stats
  reset_checker reset h =
      if reset
      then record h { store = reset_all_stats redis (map (λ e. e.0) h.health_paths) h.store }
      else h

  unfoldable pub status_page : Dict RoutingRules → Loader → HealthChecker S → Outcome StatusAnswer
  unfolding get_all_stats get_cached_path_stats get_plugin_status
  status_page rules plugins h =
      let stats = get_all_stats redis sort_stats h in
      get_cached_path_stats parse_int client rules stats h.store >>= λ cached. returns (
        page (record {
          backend_stats = stats;
          cached_stats = cached;
          plugins = get_plugin_status range sort_plugins plugins;
        }))

  -- The query is the flag `reset`, or does not bind.
  unfoldable pub handle_status :
      Option Bool
      → Dict RoutingRules
      → Loader
      → HealthChecker S
      → Outcome StatusAnswer × HealthChecker S
  unfolding reset_checker status_page
  handle_status none rules plugins h = (returns bad_request, h)
  handle_status (some reset) rules plugins h =
      let h' = reset_checker reset h in (status_page rules plugins h', h')
