-- ===== src/Health/Checker/Tests.antt =====
-- The checker against a store that is a list of hashes by their keys.
use mini_gateway.Common.{
  ℕ, ◌≡◌, ◌⊎◌, refl, sym, ap, subst, String, true, false, List, [], ◌∷◌, ◌++◌, map, Option, none,
  some, some-injective, Dict, lookup, insert, delete, lookup-insert, lookup-insert_self,
  lookup-delete, Elem, str_eq, eq_iff, Bool-cases, inl, inr, if◌then◌else◌,
}
use mini_gateway.Common.Int.{pos}
use mini_gateway.Config.{RoutingRule, RoutingRules}
use mini_gateway.Health.{
  zero_time, TargetStatus, Value, Redis, health_stats_key, stat_of, loaded, load_from_redis,
}
use mini_gateway.Health.Store.{IsRedis}
use mini_gateway.Health.Tests.{lookup-append}
use mini_gateway.Health.Checker.{HealthChecker, Probes, heartbeat_check}
use mini_gateway.Health.Checker.Registered.{last_rule, found_path, found_status}
use mini_gateway.Health.Checker.Probed.{AfterProbe, status_with, heartbeat_check_lem}
use mini_gateway.Health.Checker.Start.{
  KeyCommands, IsKeyCommands, clear_redis_keys, clear_patterns, init_health_checker,
  init_health_checker_lem,
}

abbrev Hashes : Type 0
Hashes = Dict (Dict Value)

abbrev or_empty : Option (Dict Value) → Dict Value
or_empty none = []
or_empty (some hash) = hash

abbrev hashes : Redis Hashes
unfolding lookup insert
hashes = record {
  hmset = λ s key fields. insert key (fields ++ or_empty (lookup key s)) s;
  hget_all = λ s key. some (or_empty (lookup key s));
}

hashes-IsRedis : IsRedis hashes
unfolding hashes
hashes-IsRedis = record {
  hget_all-same = λ s key fields. (
    fields ++ or_empty (lookup key s),
    rw (lookup-insert_self key (fields ++ or_empty (lookup key s)) s) refl,
    λ field value h. lookup-append field value fields (or_empty (lookup key s)) h,
  );
  hget_all-other = λ s key other fields apart.
      rw (lookup-insert key other (fields ++ or_empty (lookup key s)) s, apart) refl;
}

abbrev delete_each : List String → Hashes → Hashes
unfolding delete
delete_each [] s = s
delete_each (key ∷ keys) s = delete_each keys (delete key s)

abbrev commands : KeyCommands Hashes
unfolding delete_each
commands = record {
  keys = λ s pattern. some (map (λ e. e.0) s);
  delete_all = λ found s. (delete_each found s, true);
}

abbrev IsEmpty : Hashes → String → Type 0
unfolding lookup
IsEmpty s key = or_empty (lookup key s) ≡ []

listed : (s : Hashes) (key : String) → IsEmpty s key ⊎ Elem key (map (λ e. e.0) s)
unfolding IsEmpty lookup
listed [] key = inl refl
listed (e ∷ s) key = elim (Bool-cases (str_eq e.0 key)) [
  | inl own ↦ inr (inl (sym ((eq_iff e.0 key).0 own)))
  | inr apart ↦ elim (listed s key) [
    | inl empty ↦ inl (rw apart empty)
    | inr found ↦ inr (inr found)
  ]
]

delete-IsEmpty : (k : String) (s : Hashes) (key : String) → IsEmpty s key → IsEmpty (delete k s) key
unfolding IsEmpty
delete-IsEmpty k s key e = elim (Bool-cases (str_eq k key)) [
  | inl own ↦ rw (lookup-delete k key s, own) refl
  | inr apart ↦ rw (lookup-delete k key s, apart) e
]

delete_each-IsEmpty :
    (keys : List String) (s : Hashes) (key : String)
    → IsEmpty s key
    → IsEmpty (delete_each keys s) key
unfolding delete_each
delete_each-IsEmpty [] s key e = e
delete_each-IsEmpty (k ∷ keys) s key e =
    delete_each-IsEmpty keys (delete k s) key (delete-IsEmpty k s key e)

delete_each-Elem :
    (keys : List String) (s : Hashes) (key : String)
    → Elem key keys
    → IsEmpty (delete_each keys s) key
unfolding delete_each IsEmpty
delete_each-Elem [] s key h = absurd h
delete_each-Elem (k ∷ keys) s key (inl same) =
    let own : str_eq k key ≡ true = (eq_iff k key).1 (sym same) in
    delete_each-IsEmpty keys (delete k s) key (rw (lookup-delete k key s, own) refl)
delete_each-Elem (k ∷ keys) s key (inr h) = delete_each-Elem keys (delete k s) key h

commands-IsKeyCommands : IsKeyCommands hashes commands
unfolding hashes commands IsEmpty
commands-IsKeyCommands = record {
  keys-all = λ s host found e. elim (listed s (health_stats_key host)) [
    | inl empty ↦ inl (ap some empty)
    | inr h ↦ inr (subst (Elem (health_stats_key host)) (some-injective e) h)
  ];
  delete_all-gone = λ s found key h ok. ap some (delete_each-Elem found s key h);
  delete_all-empty = λ s found key e. ap some (delete_each-IsEmpty found s key (some-injective e));
}

abbrev rule_of : String → String → RoutingRule
rule_of target path = record {
  target = target;
  weight = pos 1;
  env = "stable";
  protocol = "http";
  health_check_path = path;
}

abbrev host_of : RoutingRule → Option String
host_of rule = some rule.target

-- Two rules have the host a.
abbrev rules : Dict RoutingRules
rules = ("/api", rule_of "a" "/ping" ∷ rule_of "b" "" ∷ []) ∷ ("/users", rule_of "a" "" ∷ []) ∷ []

-- A status of an earlier run.
abbrev stale : Hashes
unfolding insert
stale = insert (health_stats_key "old") (("url", Value.text "old") ∷ []) []

abbrev checker : HealthChecker Hashes
unfolding stale
checker = record {
  health_paths = ("old", "/ping") ∷ ("b", "/health") ∷ [];
  heartbeat_interval = pos 10;
  store = stale;
}

abbrev probes : Probes
probes = record {
  head = λ url. some (if str_eq url "http://old/ping" then 200 else 503);
  grpc_dial = λ target. false;
  grpc_check = λ target service. none;
  web_socket_dial = λ url. false;
}

init_health_checker_lem_example :
    let found = last_rule host_of "a" rules none in
    let h = init_health_checker commands hashes host_of rules (pos 10) stale in
    (lookup "a" h.health_paths ≡ found_path found)
    × (load_from_redis hashes (health_stats_key "a") h.store ≡ found_status none found)
unfolding clear_redis_keys clear_patterns commands stale
init_health_checker_lem_example =
    init_health_checker_lem hashes commands commands-IsKeyCommands hashes-IsRedis host_of rules
      (pos 10) stale "a" refl

abbrev old_status : TargetStatus
old_status = record {
  rule = "";
  url = "old";
  protocol = "";
  request_count = 0;
  success_count = 0;
  cache_hit_count = 0;
  failure_count = 0;
  probe_request_count = 0;
  probe_success_count = 0;
  probe_failure_count = 0;
  last_probe_time = zero_time;
  last_request_time = zero_time;
}

heartbeat_check_lem_example :
    ((succeeded failed : ℕ) × (load_from_redis hashes
          (health_stats_key "old")
          (heartbeat_check probes hashes (λ host. zero_time) checker).store
        ≡ some (status_with old_status succeeded failed zero_time))
      × AfterProbe probes "old" "/ping" old_status succeeded failed)
    × (load_from_redis hashes
          (health_stats_key "a")
          (heartbeat_check probes hashes (λ host. zero_time) checker).store
        ≡ load_from_redis hashes (health_stats_key "a") checker.store)
unfolding lookup checker stale load_from_redis loaded stat_of hashes insert
heartbeat_check_lem_example =
    heartbeat_check_lem hashes hashes-IsRedis probes (λ host. zero_time) checker "old" "/ping"
      old_status "a" (refl, (refl, tt)) refl refl refl
