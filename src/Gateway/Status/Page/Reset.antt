-- ===== src/Gateway/Status/Page/Reset.antt =====
-- What a request for the status page does to the statistics.
use mathlib.Core.Option
use mini_gateway.Common.{
  ◌≡◌, refl, ap, subst, ◌∙◌, String, Bool, true, false, ◌&&◌, List, [], ◌∷◌, map, any, Option, none,
  some, Dict, str_eq, eq_iff, Bool-cases, inl, inr, if◌then◌else◌,
}
use mini_gateway.Common.Int.{ℤ}
use mini_gateway.Config.{RoutingRules}
use mini_gateway.Cache.Client.{Commands}
use mini_gateway.Health.{
  zero_time, TargetStatus, Redis, reset, health_stats_key, load_from_redis, modify, reset_all_stats,
}
use mini_gateway.Health.Store.{IsRedis, to_seconds, truncated}
use mini_gateway.Health.Targets.{modify-apart}
use mini_gateway.Health.Checker.{HealthChecker}
use mini_gateway.Health.Checker.Registered.{health_stats_key-apart}
use mini_gateway.Health.Checker.Beats.{modify_own}
use mini_gateway.Plugins.{Plugin, Loader}
use mini_gateway.Gateway.Status.Page.{PluginStatus, reset_checker, handle_status}

-- Field by field.
abbrev pub cleared_stat : TargetStatus → TargetStatus
cleared_stat stat = record {
  rule = stat.rule;
  url = stat.url;
  protocol = stat.protocol;
  request_count = 0;
  success_count = 0;
  cache_hit_count = stat.cache_hit_count;
  failure_count = 0;
  probe_request_count = 0;
  probe_success_count = 0;
  probe_failure_count = 0;
  last_probe_time = zero_time;
  last_request_time = to_seconds stat.last_request_time;
}

reset-cleared_stat : (stat : TargetStatus) → truncated (reset stat) ≡ cleared_stat stat
unfolding reset
reset-cleared_stat stat = refl

map-reset :
    (o : Option TargetStatus)
    → Option.map (λ stat. truncated (reset stat)) o ≡ Option.map cleared_stat o
map-reset none = refl
map-reset (some stat) = ap some (reset-cleared_stat stat)

abbrev pub is_reset : Option Bool → Bool
is_reset none = false
is_reset (some reset) = reset

cleared_again :
    (again : Bool) (o : Option TargetStatus)
    → (if again
        then Option.map cleared_stat (Option.map cleared_stat o)
        else Option.map cleared_stat o)
      ≡ Option.map cleared_stat o
cleared_again false o = refl
cleared_again true none = refl
cleared_again true (some stat) = refl

module _ {S : Type 0} (redis : Redis S) (laws : IsRedis redis) (host : String) where
  abbrev held : S → Option TargetStatus
  held s = load_from_redis redis (health_stats_key host) s

  reset_all_stats-held :
      (targets : List String) (s : S)
      → held (reset_all_stats redis targets s)
        ≡ (if any (λ t. str_eq t host) targets then Option.map cleared_stat (held s) else held s)
  unfolding reset_all_stats
  reset_all_stats-held [] s = refl
  reset_all_stats-held (target ∷ targets) s =
      let s' = modify redis reset (health_stats_key target) s in
      let ih = reset_all_stats-held targets s' in
      elim (Bool-cases (str_eq target host)) [
        | inr differ ↦
            let same : held s' ≡ held s =
              modify-apart redis laws reset (health_stats_key target) (health_stats_key host) s
                (health_stats_key-apart target host differ) in
            rw differ (
              ih
              ∙ ap (λ o. if any (λ t. str_eq t host) targets then Option.map cleared_stat o else o)
                  same)
        | inl own ↦
            let done : held s' ≡ Option.map cleared_stat (held s) =
              subst
                (λ t.
                  load_from_redis redis (health_stats_key t) s'
                  ≡ Option.map cleared_stat (load_from_redis redis (health_stats_key t) s))
                ((eq_iff target host).0 own)
                (modify_own redis laws reset (health_stats_key target) s
                  ∙ map-reset (load_from_redis redis (health_stats_key target) s)) in
            let again = any (λ t. str_eq t host) targets in
            rw own (
              ih
              ∙ ap (λ o. if again then Option.map cleared_stat o else o) done
              ∙ cleared_again again (held s))
      ]

  -- A request for the status page changes a status only if its query asks for a reset, and then just those of the
  -- checker's targets: the six counts of requests, of probes and of their ends become zero, the time of the last probe
  -- the zero time, and the count of cache hits, the names and the second of the last request stay.
  pub handle_status_lem :
      (client : Option (Commands S)) (parse_int : String → Option ℤ)
      (sort_stats : List TargetStatus → List TargetStatus) (range : Dict Plugin → Dict Plugin)
      (sort_plugins : List PluginStatus → List PluginStatus) (query : Option Bool)
      (rules : Dict RoutingRules) (plugins : Loader) (h : HealthChecker S)
      → load_from_redis redis
          (health_stats_key host)
          (handle_status redis client parse_int sort_stats range sort_plugins query rules plugins
            h).1.store
        ≡ (if is_reset query && any (λ t. str_eq t host) (map (λ e. e.0) h.health_paths)
            then Option.map cleared_stat (load_from_redis redis (health_stats_key host) h.store)
            else load_from_redis redis (health_stats_key host) h.store)
  unfolding handle_status reset_checker
  handle_status_lem client parse_int sort_stats range sort_plugins none rules plugins h = refl
  handle_status_lem client parse_int sort_stats range sort_plugins (some false) rules plugins h =
      refl
  handle_status_lem client parse_int sort_stats range sort_plugins (some true) rules plugins h =
      reset_all_stats-held (map (λ e. e.0) h.health_paths) h.store
