-- ===== src/Health/Tests.antt =====
-- The checker against a store that is a function of the key.
use mini_gateway.Common.{
  ◌≡◌, refl, String, true, false, List, [], ◌∷◌, ◌++◌, Option, some, Dict, lookup, str_eq, eq_refl,
  Bool-cases, inl, inr, if◌then◌else◌,
}
use mini_gateway.Common.Int.{pos}
use mini_gateway.Config.{RoutingRule}
use mini_gateway.Health.{
  zero_time, TargetStatus, Value, Redis, less, new_status, health_stats_key, save_to_redis,
  load_from_redis,
}
use mini_gateway.Health.Store.{IsRedis, truncated, load_from_redis-save_to_redis}
use mini_gateway.Health.Targets.{normalize_target, count_requests, count_requests-grpc}
use mini_gateway.Health.Accounts.{
  Accounted, Event, finished, heartbeat, refresh, run, run-Accounted,
}

abbrev pub Store : Type 0
Store = String → Dict Value

abbrev pub store : Redis Store
store = record {
  hmset = λ s key fields. λ other. if str_eq key other then fields ++ s other else s other;
  hget_all = λ s key. some (s key);
}

pub lookup-append :
    (field : String) (value : Value) (fields rest : Dict Value)
    → lookup field fields ≡ some value
    → lookup field (fields ++ rest) ≡ some value
unfolding lookup
lookup-append field value [] rest h = cc
lookup-append field value (f ∷ fs) rest h = elim (Bool-cases (str_eq f.0 field)) [
  | inl here ↦ (let found : some f.1 ≡ some value = rw here at h in rw here found)
  | inr there ↦
      (let later : lookup field fs ≡ some value = rw there at h in
        rw there (lookup-append field value fs rest later))
]

pub store-IsRedis : IsRedis store
store-IsRedis = record {
  hget_all-same = λ s key fields. (
    fields ++ s key,
    (let self : str_eq key key ≡ true = eq_refl key in rw self refl),
    λ field value h. lookup-append field value fields (s key) h,
  );
  hget_all-other = λ s key other fields apart. rw apart refl;
}

abbrev rule_of : String → String → RoutingRule
rule_of target protocol = record {
  target = target;
  weight = pos 1;
  env = "stable";
  protocol = protocol;
  health_check_path = "";
}

abbrev pub status : TargetStatus
status = new_status "/api" (rule_of "http://a" "http")

abbrev pub empty : Store
empty key = []

load_from_redis-save_to_redis_example :
    (load_from_redis store
        (health_stats_key "a")
        (save_to_redis store (health_stats_key "a") status empty)
      ≡ some (truncated status))
    × ((other : String)
        → str_eq (health_stats_key "a") other ≡ false
        → load_from_redis store other (save_to_redis store (health_stats_key "a") status empty)
          ≡ load_from_redis store other empty)
load_from_redis-save_to_redis_example =
    load_from_redis-save_to_redis store store-IsRedis (health_stats_key "a") status empty

empty-Accounted : Accounted store store-IsRedis empty
unfolding load_from_redis
empty-Accounted key stat h = cc

abbrev host_of : RoutingRule → Option String
host_of rule = some rule.target

abbrev events : List Event
events =
    refresh (("/api", rule_of "a" "http" ∷ []) ∷ [])
    ∷ finished "a" true zero_time
    ∷ heartbeat (("a", (false, zero_time)) ∷ [])
    ∷ []

run-Accounted_example : Accounted store store-IsRedis (run store host_of events empty)
run-Accounted_example = run-Accounted store store-IsRedis host_of events empty empty-Accounted

-- The order by which `GetAllStats` sorts has a cycle.
less_cycle :
    (less (new_status "/3" (rule_of "1" "http")) (new_status "/1" (rule_of "2" "http")) ≡ true)
    × (less (new_status "/1" (rule_of "2" "http")) (new_status "/2" (rule_of "3" "grpc")) ≡ true)
    × (less (new_status "/2" (rule_of "3" "grpc")) (new_status "/3" (rule_of "1" "http")) ≡ true)
unfolding less
less_cycle = (refl, refl, refl)

abbrev url_host : String → Option String
url_host target = some ""

abbrev grpc_rule : RoutingRule
grpc_rule = rule_of "localhost:50051" "grpc"

count_requests-grpc_example :
    (normalize_target url_host grpc_rule ≡ some "localhost:50051")
    × (load_from_redis store (health_stats_key "localhost:50051") (
          count_requests url_host store "localhost:50051"
            ((true, zero_time) ∷ (false, zero_time) ∷ [])
            (save_to_redis store
              (health_stats_key "localhost:50051")
              (new_status "/hello" grpc_rule)
              empty))
        ≡ load_from_redis store (health_stats_key "localhost:50051") (
            save_to_redis store
              (health_stats_key "localhost:50051")
              (new_status "/hello" grpc_rule)
              empty))
count_requests-grpc_example =
    count_requests-grpc store store-IsRedis url_host grpc_rule "" refl refl refl
      ((true, zero_time) ∷ (false, zero_time) ∷ [])
      (save_to_redis store (health_stats_key "localhost:50051") (new_status "/hello" grpc_rule)
        empty)
