-- ===== src/Health.antt =====
-- internal/core/health/health_checker.go: the statistics of the targets, kept as hashes in Redis. The
-- two commands on hashes are a record of operations; what `url.Parse` gives and how a probe ends are
-- arguments. The lock makes each method one step. A counter is its 64-bit pattern.
pub mod Store
pub mod Accounts
pub mod Targets
pub mod Checker
pub mod Tests
use Prim.Native.Nat.{Ordering}
use Prim.Native.String.{◌++◌ as str_append, compare}
use mini_gateway.Common.{
  ℕ, ◌+◌, ◌%◌, String, Bool, true, false, List, [], ◌∷◌, Option, none, some, Dict, lookup, insert,
  length, ◌==◌, str_eq, if◌then◌else◌,
}
use mini_gateway.Common.Int.{ℤ, pos, negsuc}
use mini_gateway.Config.{RoutingRule, RoutingRules}

-- An instant: Unix seconds and nanoseconds. `time.Time{}` is the first of January of year 1.
pub record Time : Type 0 where
  pub unix : ℤ
  pub nanos : ℕ

abbrev pub zero_time : Time
zero_time = record { unix = negsuc 62135596799; nanos = 0 }

pub record TargetStatus : Type 0 where
  pub rule : String
  pub url : String
  pub protocol : String
  pub request_count : ℕ
  pub success_count : ℕ
  pub cache_hit_count : ℕ
  pub failure_count : ℕ
  pub probe_request_count : ℕ
  pub probe_success_count : ℕ
  pub probe_failure_count : ℕ
  pub last_probe_time : Time
  pub last_request_time : Time

-- A field of a hash: a text, the decimal digits of a counter, or those of a time in seconds. Each is
-- read back as it was written.
pub data Value : Type 0 where
  text : String → Value
  count : ℕ → Value
  seconds : ℤ → Value

-- `hget_all` may fail; the error of a write is only logged.
pub record Redis (S : Type 0) : Type 0 where
  pub hmset : S → String → Dict Value → S
  pub hget_all : S → String → Option (Dict Value)

abbrev text_of : Option Value → String
text_of (some (text t)) = t
text_of _ = ""

abbrev count_of : Option Value → ℕ
count_of (some (count n)) = n
count_of _ = 0

abbrev time_of : Option Value → Time
time_of (some (seconds n)) = record { unix = n; nanos = 0 }
time_of _ = zero_time

abbrev pub health_stats_key : String → String
health_stats_key target = str_append "mg:health:stats:" target

abbrev fields_of : TargetStatus → Dict Value
fields_of stat =
    ("rule", text stat.rule)
    ∷ ("url", text stat.url)
    ∷ ("protocol", text stat.protocol)
    ∷ ("request_count", count stat.request_count)
    ∷ ("success_count", count stat.success_count)
    ∷ ("cache_hit_count", count stat.cache_hit_count)
    ∷ ("failure_count", count stat.failure_count)
    ∷ ("probe_request_count", count stat.probe_request_count)
    ∷ ("probe_success_count", count stat.probe_success_count)
    ∷ ("probe_failure_count", count stat.probe_failure_count)
    ∷ ("last_probe_time", seconds stat.last_probe_time.unix)
    ∷ ("last_request_time", seconds stat.last_request_time.unix)
    ∷ []

unfoldable pub stat_of : Dict Value → TargetStatus
unfolding lookup
stat_of hash = record {
  rule = text_of (lookup "rule" hash);
  url = text_of (lookup "url" hash);
  protocol = text_of (lookup "protocol" hash);
  request_count = count_of (lookup "request_count" hash);
  success_count = count_of (lookup "success_count" hash);
  cache_hit_count = count_of (lookup "cache_hit_count" hash);
  failure_count = count_of (lookup "failure_count" hash);
  probe_request_count = count_of (lookup "probe_request_count" hash);
  probe_success_count = count_of (lookup "probe_success_count" hash);
  probe_failure_count = count_of (lookup "probe_failure_count" hash);
  last_probe_time = time_of (lookup "last_probe_time" hash);
  last_request_time = time_of (lookup "last_request_time" hash);
}

-- A failed read and a missing hash are treated alike by all callers.
unfoldable pub loaded : Option (Dict Value) → Option TargetStatus
unfolding stat_of
loaded none = none
loaded (some []) = none
loaded (some (field ∷ fields)) = some (stat_of (field ∷ fields))

abbrev pub increment : ℕ → ℕ
increment n = (n + 1) % 18446744073709551616

unfoldable pub counted : Bool → Time → TargetStatus → TargetStatus
counted success now stat =
    let stat' : TargetStatus = record stat {
      request_count = increment stat.request_count;
      last_request_time = now;
    } in
    if success
    then record stat' { success_count = increment stat.success_count }
    else record stat' { failure_count = increment stat.failure_count }

abbrev pub is_probed : String → Bool
is_probed protocol =
    if str_eq protocol "http"
    then true
    else if str_eq protocol ""
    then true
    else if str_eq protocol "grpc"
    then true
    else str_eq protocol "websocket"

-- What a probe adds: nothing for a protocol that is not probed.
unfoldable pub with_result : Bool → Bool → TargetStatus → TargetStatus
with_result false healthy stat = stat
with_result true true stat = record stat {
  probe_success_count = increment stat.probe_success_count;
}
with_result true false stat = record stat {
  probe_failure_count = increment stat.probe_failure_count;
}

-- One round of the heartbeat for one target, whose probe ended well or not.
unfoldable pub probed : Bool → Time → TargetStatus → TargetStatus
unfolding with_result
probed healthy now stat = with_result (is_probed stat.protocol) healthy (record stat {
  last_probe_time = now;
  probe_request_count = increment stat.probe_request_count;
})

unfoldable pub reset : TargetStatus → TargetStatus
reset stat = record stat {
  request_count = 0;
  success_count = 0;
  failure_count = 0;
  probe_request_count = 0;
  probe_success_count = 0;
  probe_failure_count = 0;
  last_probe_time = zero_time;
}

unfoldable pub hit : TargetStatus → TargetStatus
hit stat = record stat { cache_hit_count = increment stat.cache_hit_count }

abbrev pub new_status : String → RoutingRule → TargetStatus
new_status rule_name rule = record {
  rule = rule_name;
  url = rule.target;
  protocol = rule.protocol;
  request_count = 0;
  success_count = 0;
  cache_hit_count = 0;
  failure_count = 0;
  probe_request_count = 0;
  probe_success_count = 0;
  probe_failure_count = 0;
  last_probe_time = zero_time;
  last_request_time = zero_time;
}

abbrev text_less : String → String → Bool
text_less a b = elim (compare a b) [ Ordering.lt ↦ true | _ ↦ false ]

-- The comparison that `GetAllStats` sorts by.
unfoldable pub less : TargetStatus → TargetStatus → Bool
less a b =
    if str_eq a.protocol b.protocol
    then text_less a.url b.url
    else if str_eq a.rule b.rule
    then text_less a.protocol b.protocol
    else text_less a.rule b.rule

module _ {S : Type 0} (redis : Redis S) where
  abbrev pub save_to_redis : String → TargetStatus → S → S
  save_to_redis key stat s = redis.hmset s key (fields_of stat)

  unfoldable pub load_from_redis : String → S → Option TargetStatus
  unfolding loaded
  load_from_redis key s = loaded (redis.hget_all s key)

  abbrev save_changed : (TargetStatus → TargetStatus) → String → Option TargetStatus → S → S
  save_changed change key none s = s
  save_changed change key (some stat) s = save_to_redis key (change stat) s

  -- Load, change, save: what the methods that follow do to the hash of a target.
  unfoldable pub modify : (TargetStatus → TargetStatus) → String → S → S
  unfolding load_from_redis
  modify change key s = save_changed change key (load_from_redis key s) s

  -- `host` is the target's host, or the target itself when it does not parse.
  unfoldable pub update_request_count : String → Bool → Time → S → S
  unfolding modify counted
  update_request_count host success now s = modify (counted success now) (health_stats_key host) s

  unfoldable pub check_cache_hit : String → S → S
  unfolding modify hit
  check_cache_hit target s = modify hit (health_stats_key target) s

  unfoldable pub reset_all_stats : List String → S → S
  unfolding modify reset
  reset_all_stats [] s = s
  reset_all_stats (target ∷ targets) s =
      reset_all_stats targets (modify reset (health_stats_key target) s)

  -- The heartbeat visits the targets, each with the end of its probe and its time.
  unfoldable pub perform_heartbeat_check : List (String × (Bool × Time)) → S → S
  unfolding modify probed
  perform_heartbeat_check [] s = s
  perform_heartbeat_check ((target, (healthy, now)) ∷ rest) s =
      perform_heartbeat_check rest (modify (probed healthy now) (health_stats_key target) s)

module _ {S : Type 0} (redis : Redis S) (host_of : RoutingRule → Option String) where
  save_new : Option String → String → RoutingRule → S → S
  save_new none rule_name rule s = s
  save_new (some host) rule_name rule s =
      save_to_redis redis (health_stats_key host) (new_status rule_name rule) s

  refresh_rules : String → RoutingRules → S → S
  unfolding save_new
  refresh_rules rule_name [] s = s
  refresh_rules rule_name (rule ∷ rules) s =
      refresh_rules rule_name rules (save_new (host_of rule) rule_name rule s)

  unfoldable pub refresh_targets : Dict RoutingRules → S → S
  unfolding refresh_rules
  refresh_targets [] s = s
  refresh_targets ((rule_name, rules) ∷ rest) s =
      refresh_targets rest (refresh_rules rule_name rules s)
