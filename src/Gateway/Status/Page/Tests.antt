-- ===== src/Gateway/Status/Page/Tests.antt =====
-- A target with a request and a cache hit, whose statistics are reset.
use mathlib.Core.Option
use mini_gateway.Common.{◌≡◌, String, true, [], ◌∷◌, Option, none, some}
use mini_gateway.Common.Int.{ℤ, pos}
use mini_gateway.Config.{RoutingRule}
use mini_gateway.Cache.Client.{Commands, missing}
use mini_gateway.Health.{TargetStatus, health_stats_key, new_status, save_to_redis, load_from_redis}
use mini_gateway.Health.Tests.{Store, store, store-IsRedis, empty}
use mini_gateway.Health.Checker.{HealthChecker}
use mini_gateway.Plugins.{new_loader}
use mini_gateway.Gateway.Status.Page.{handle_status}
use mini_gateway.Gateway.Status.Page.Reset.{cleared_stat, handle_status_lem}

abbrev rule : RoutingRule
rule = record {
  target = "http://a";
  weight = pos 1;
  env = "";
  protocol = "http";
  health_check_path = "";
}

abbrev used : TargetStatus
used = record (new_status "/a" rule) { request_count = 1; success_count = 1; cache_hit_count = 1 }

abbrev client : Commands Store
client = record {
  get = λ s key. missing;
  set = λ s key value ttl. none;
  incr = λ s key. none;
  expire = λ s key ttl. some s;
  del = λ s key. some s;
  mget = λ s keys. none;
}

abbrev checker : HealthChecker Store
checker = record {
  health_paths = ("a", "/health") ∷ [];
  heartbeat_interval = pos 30;
  store = save_to_redis store (health_stats_key "a") used empty;
}

abbrev parse_int : String → Option ℤ
parse_int s = none

handle_status_lem_example :
    load_from_redis store
      (health_stats_key "a")
      (handle_status store
        (some client)
        parse_int
        (λ stats. stats)
        (λ loaded. loaded)
        (λ plugins. plugins)
        (some true)
        (("/a", rule ∷ []) ∷ [])
        new_loader
        checker).1.store
    ≡ Option.map cleared_stat (load_from_redis store (health_stats_key "a") checker.store)
handle_status_lem_example =
    handle_status_lem store store-IsRedis "a" (some client) parse_int (λ stats. stats)
      (λ loaded. loaded) (λ plugins. plugins) (some true) (("/a", rule ∷ []) ∷ []) new_loader
      checker
