-- ===== src/Health/Checker/Registered.antt =====
-- What RefreshTargets registers: the path and the status of every host of the rules.

use text.Mathlib.TextLemmas.{append_cancel_left}
use mini_gateway.Common.{
  ◌≡◌, refl, sym, ap, subst, ◌∙◌, String, false, true-ne-false, [], ◌∷◌, Option, none, some, Dict,
  lookup, lookup-insert, str_eq, eq_iff, Bool-cases, inl, inr, if◌then◌else◌,
}
use mini_gateway.Common.Int.{ℤ}
use mini_gateway.Config.{RoutingRule, RoutingRules}
use mini_gateway.Health.{
  TargetStatus, Redis, new_status, health_stats_key, save_to_redis, load_from_redis, save_new,
  refresh_rules, refresh_targets,
}
use mini_gateway.Health.Store.{IsRedis, load_from_redis-save_to_redis}
use mini_gateway.Health.Checker.{
  HealthChecker, health_path_of, path_added, paths_of_rules, paths_of, refresh_checker,
}

pub health_stats_key-apart :
    (a b : String) → str_eq a b ≡ false → str_eq (health_stats_key a) (health_stats_key b) ≡ false
health_stats_key-apart a b differ =
    elim (Bool-cases (str_eq (health_stats_key a) (health_stats_key b))) [
      | inr apart ↦ apart
      | inl same ↦
          let one_host : a ≡ b =
            append_cancel_left "mg:health:stats:" a b
              ((eq_iff (health_stats_key a) (health_stats_key b)).0 same) in
          absurd (true-ne-false (sym ((eq_iff a b).1 one_host) ∙ differ))
    ]

-- The last rule so far that has the host, with its path.
abbrev pub Found : Type 0
Found = Option (String × RoutingRule)

abbrev pub found_path : Found → Option String
found_path none = none
found_path (some (rule_name, rule)) = some (health_path_of rule)

abbrev pub found_status : Option TargetStatus → Found → Option TargetStatus
found_status old none = old
found_status old (some (rule_name, rule)) = some (new_status rule_name rule)

module _ (host_of : RoutingRule → Option String) (host : String) where
  abbrev newer : Option String → String → RoutingRule → Found → Found
  newer none rule_name rule found = found
  newer (some other) rule_name rule found =
      if str_eq other host then some (rule_name, rule) else found

  abbrev last_of : String → RoutingRules → Found → Found
  last_of rule_name [] found = found
  last_of rule_name (rule ∷ rules) found =
      last_of rule_name rules (newer (host_of rule) rule_name rule found)

  abbrev pub last_rule : Dict RoutingRules → Found → Found
  last_rule [] found = found
  last_rule ((rule_name, rules) ∷ rest) found = last_rule rest (last_of rule_name rules found)

  path_added-newer :
      (of_rule : Option String) (rule_name : String) (rule : RoutingRule) (found : Found)
      (paths : Dict String)
      → lookup host paths ≡ found_path found
      → lookup host (path_added of_rule rule paths)
        ≡ found_path (newer of_rule rule_name rule found)
  path_added-newer none rule_name rule found paths e = e
  path_added-newer (some other) rule_name rule found paths e =
      elim (Bool-cases (str_eq other host)) [
        | inl own ↦ rw (lookup-insert other host (health_path_of rule) paths, own) refl
        | inr apart ↦ rw (lookup-insert other host (health_path_of rule) paths, apart) e
      ]

  paths_of_rules-last_of :
      (rule_name : String) (rules : RoutingRules) (found : Found) (paths : Dict String)
      → lookup host paths ≡ found_path found
      → lookup host (paths_of_rules host_of rules paths)
        ≡ found_path (last_of rule_name rules found)
  unfolding paths_of_rules
  paths_of_rules-last_of rule_name [] found paths e = e
  paths_of_rules-last_of rule_name (rule ∷ rules) found paths e =
      paths_of_rules-last_of rule_name rules (newer (host_of rule) rule_name rule found)
        (path_added (host_of rule) rule paths)
        (path_added-newer (host_of rule) rule_name rule found paths e)

  paths_of-last_rule :
      (rules : Dict RoutingRules) (found : Found) (paths : Dict String)
      → lookup host paths ≡ found_path found
      → lookup host (paths_of host_of rules paths) ≡ found_path (last_rule rules found)
  unfolding paths_of
  paths_of-last_rule [] found paths e = e
  paths_of-last_rule ((rule_name, rules) ∷ rest) found paths e =
      paths_of-last_rule rest (last_of rule_name rules found) (paths_of_rules host_of rules paths)
        (paths_of_rules-last_of rule_name rules found paths e)

  module _ {S : Type 0} (redis : Redis S) (laws : IsRedis redis) (old : Option TargetStatus) where
    save_new-newer :
        (of_rule : Option String) (rule_name : String) (rule : RoutingRule) (found : Found) (s : S)
        → load_from_redis redis (health_stats_key host) s ≡ found_status old found
        → load_from_redis redis
            (health_stats_key host)
            (save_new redis host_of of_rule rule_name rule s)
          ≡ found_status old (newer of_rule rule_name rule found)
    unfolding save_new
    save_new-newer none rule_name rule found s e = e
    save_new-newer (some other) rule_name rule found s e =
        let (own, rest) =
          load_from_redis-save_to_redis redis laws (health_stats_key other)
            (new_status rule_name rule) s in
        elim (Bool-cases (str_eq other host)) [
          | inr apart ↦
              rw apart (rest (health_stats_key host) (health_stats_key-apart other host apart) ∙ e)
          | inl same ↦
              let one_key = ap health_stats_key ((eq_iff other host).0 same) in
              rw same (
                subst
                  (λ key.
                    load_from_redis redis key
                      (save_to_redis redis (health_stats_key other) (new_status rule_name rule) s)
                    ≡ some (new_status rule_name rule))
                  one_key own)
        ]

    refresh_rules-last_of :
        (rule_name : String) (rules : RoutingRules) (found : Found) (s : S)
        → load_from_redis redis (health_stats_key host) s ≡ found_status old found
        → load_from_redis redis
            (health_stats_key host)
            (refresh_rules redis host_of rule_name rules s)
          ≡ found_status old (last_of rule_name rules found)
    unfolding refresh_rules
    refresh_rules-last_of rule_name [] found s e = e
    refresh_rules-last_of rule_name (rule ∷ rules) found s e =
        refresh_rules-last_of rule_name rules (newer (host_of rule) rule_name rule found)
          (save_new redis host_of (host_of rule) rule_name rule s)
          (save_new-newer (host_of rule) rule_name rule found s e)

    refresh_targets-last_rule :
        (rules : Dict RoutingRules) (found : Found) (s : S)
        → load_from_redis redis (health_stats_key host) s ≡ found_status old found
        → load_from_redis redis (health_stats_key host) (refresh_targets redis host_of rules s)
          ≡ found_status old (last_rule rules found)
    unfolding refresh_targets
    refresh_targets-last_rule [] found s e = e
    refresh_targets-last_rule ((rule_name, rules) ∷ rest) found s e =
        refresh_targets-last_rule rest (last_of rule_name rules found)
          (refresh_rules redis host_of rule_name rules s)
          (refresh_rules-last_of rule_name rules found s e)

-- After a refresh, a host has a path exactly if some rule has that host. Its path is that of the last such rule, which is
-- "/health" if the rule names none, and its status is a new one for the same rule, whatever it was. The
-- status of any other host is as it was.
pub refresh_checker_lem :
    {S : Type 0} (redis : Redis S)
    → IsRedis redis
    → (host_of : RoutingRule → Option String) (rules : Dict RoutingRules) (interval : ℤ)
      (h : HealthChecker S) (host : String)
    → let found = last_rule host_of host rules none in
      let h' = refresh_checker host_of redis rules interval h in
      (lookup host h'.health_paths ≡ found_path found)
      × (load_from_redis redis (health_stats_key host) h'.store
          ≡ found_status (load_from_redis redis (health_stats_key host) h.store) found)
unfolding refresh_checker lookup
refresh_checker_lem redis laws host_of rules interval h host = (
  paths_of-last_rule host_of host rules none [] refl,
  refresh_targets-last_rule host_of host redis laws
      (load_from_redis redis (health_stats_key host) h.store) rules none h.store refl,
)
