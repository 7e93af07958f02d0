-- ===== src/Health/Accounts.antt =====
-- The counters of every target add up, whatever sequence of events the checker handles.
use mini_gateway.Common.{
  ℕ, ◌+◌, ◌%◌, ◌≡◌, refl, sym, subst, ◌∙◌, String, Bool, true, false, List, [], ◌∷◌, Option, none,
  some, Dict, str_eq, eq_iff, arith, Bool-cases, Option-cases, inl, inr,
}
use mini_gateway.Config.{RoutingRule, RoutingRules}
use mini_gateway.Health.{
  Time, TargetStatus, Redis, increment, is_probed, counted, with_result, probed, reset, hit,
  new_status, health_stats_key, save_to_redis, load_from_redis, modify, update_request_count,
  check_cache_hit, reset_all_stats, perform_heartbeat_check, save_new, refresh_rules,
  refresh_targets,
}
use mini_gateway.Health.Store.{IsRedis, truncated, load_from_redis-save_to_redis}

-- The requests are those that succeeded and those that failed, as 64-bit numbers; so are the probes, of
-- a protocol that is probed.
pub record IsAccounted (stat : TargetStatus) : Type 0 where
  pub requests :
      stat.request_count ≡ (stat.success_count + stat.failure_count) % 18446744073709551616
  pub probes :
      is_probed stat.protocol ≡ true
      → stat.probe_request_count
        ≡ (stat.probe_success_count + stat.probe_failure_count) % 18446744073709551616

increment-left :
    (n a b : ℕ)
    → n ≡ (a + b) % 18446744073709551616
    → increment n ≡ (increment a + b) % 18446744073709551616
increment-left n a b h = omega (arith, h)

increment-right :
    (n a b : ℕ)
    → n ≡ (a + b) % 18446744073709551616
    → increment n ≡ (a + increment b) % 18446744073709551616
increment-right n a b h = omega (arith, h)

counted-IsAccounted :
    (success : Bool) (now : Time) (stat : TargetStatus)
    → IsAccounted stat
    → IsAccounted (counted success now stat)
unfolding counted
counted-IsAccounted true now stat v = record {
  requests = increment-left stat.request_count stat.success_count stat.failure_count v.requests;
  probes = v.probes;
}
counted-IsAccounted false now stat v = record {
  requests = increment-right stat.request_count stat.success_count stat.failure_count v.requests;
  probes = v.probes;
}

with_result-IsAccounted :
    (p healthy : Bool) (now : Time) (stat : TargetStatus)
    → is_probed stat.protocol ≡ p
    → IsAccounted stat
    → IsAccounted (
        with_result p healthy (record stat {
          last_probe_time = now;
          probe_request_count = increment stat.probe_request_count;
        }))
unfolding with_result
with_result-IsAccounted false healthy now stat e v = record {
  requests = v.requests;
  probes = λ p. (let clash : false ≡ true = sym e ∙ p in cc);
}
with_result-IsAccounted true true now stat e v = record {
  requests = v.requests;
  probes = λ p.
      increment-left stat.probe_request_count stat.probe_success_count stat.probe_failure_count
        (v.probes p);
}
with_result-IsAccounted true false now stat e v = record {
  requests = v.requests;
  probes = λ p.
      increment-right stat.probe_request_count stat.probe_success_count stat.probe_failure_count
        (v.probes p);
}

probed-IsAccounted :
    (healthy : Bool) (now : Time) (stat : TargetStatus)
    → IsAccounted stat
    → IsAccounted (probed healthy now stat)
unfolding probed
probed-IsAccounted healthy now stat v =
    with_result-IsAccounted (is_probed stat.protocol) healthy now stat refl v

reset-IsAccounted : (stat : TargetStatus) → IsAccounted stat → IsAccounted (reset stat)
unfolding reset
reset-IsAccounted stat v = record { requests = refl; probes = λ p. refl }

hit-IsAccounted : (stat : TargetStatus) → IsAccounted stat → IsAccounted (hit stat)
unfolding hit
hit-IsAccounted stat v = record { requests = v.requests; probes = v.probes }

module _ {S : Type 0} (redis : Redis S) (laws : IsRedis redis) where
  abbrev pub Accounted : S → Type 0
  Accounted s =
      (key : String) (stat : TargetStatus)
      → load_from_redis redis key s ≡ some stat
      → IsAccounted stat

  save-Accounted :
      (key : String) (stat : TargetStatus) (s : S)
      → IsAccounted stat
      → Accounted s
      → Accounted (save_to_redis redis key stat s)
  save-Accounted key stat s v acc other found h =
      let (same, apart) = load_from_redis-save_to_redis redis laws key stat s in
      elim (Bool-cases (str_eq key other)) [
        | inr differ ↦ acc other found (sym (apart other differ) ∙ h)
        | inl equal ↦
            let one_key : key ≡ other = (eq_iff key other).0 equal in
            let read : load_from_redis redis other (save_to_redis redis key stat s)
                ≡ some (truncated stat) =
              subst
                (λ k.
                  load_from_redis redis k (save_to_redis redis key stat s) ≡ some (truncated stat))
                one_key same in
            let saved : some (truncated stat) ≡ some found = sym read ∙ h in
            let is_it : truncated stat ≡ found = cc in
            subst IsAccounted is_it (record { requests = v.requests; probes = v.probes })
      ]

  modify-Accounted :
      (change : TargetStatus → TargetStatus) (key : String) (s : S)
      → ((stat : TargetStatus) → IsAccounted stat → IsAccounted (change stat))
      → Accounted s
      → Accounted (modify redis change key s)
  unfolding modify
  modify-Accounted change key s kept acc = elim (Option-cases (load_from_redis redis key s)) [
    | inl missing ↦ rw missing acc
    | inr (stat, found) ↦
        rw found (save-Accounted key (change stat) s (kept stat (acc key stat found)) acc)
  ]

-- What the checker handles: a request that ended, a cache hit, a reset, a heartbeat, new routes.
pub data Event : Type 0 where
  finished : String → Bool → Time → Event
  cache_hit : String → Event
  reset_targets : List String → Event
  heartbeat : List (String × (Bool × Time)) → Event
  refresh : Dict RoutingRules → Event

module _ {S : Type 0} (redis : Redis S) (host_of : RoutingRule → Option String) where
  unfoldable pub handle : Event → S → S
  unfolding update_request_count check_cache_hit reset_all_stats perform_heartbeat_check
      refresh_targets
  handle (finished host success now) s = update_request_count redis host success now s
  handle (cache_hit target) s = check_cache_hit redis target s
  handle (reset_targets targets) s = reset_all_stats redis targets s
  handle (heartbeat probes) s = perform_heartbeat_check redis probes s
  handle (refresh rules) s = refresh_targets redis host_of rules s

  unfoldable pub run : List Event → S → S
  unfolding handle
  run [] s = s
  run (e ∷ es) s = run es (handle e s)

module _ {S : Type 0} (redis : Redis S) (laws : IsRedis redis)
    (host_of : RoutingRule → Option String) where
  reset_all_stats-Accounted :
      (targets : List String) (s : S)
      → Accounted redis laws s
      → Accounted redis laws (reset_all_stats redis targets s)
  unfolding reset_all_stats
  reset_all_stats-Accounted [] s acc = acc
  reset_all_stats-Accounted (target ∷ targets) s acc =
      reset_all_stats-Accounted targets (modify redis reset (health_stats_key target) s)
        (modify-Accounted redis laws reset (health_stats_key target) s reset-IsAccounted acc)

  pub heartbeat-Accounted :
      (probes : List (String × (Bool × Time))) (s : S)
      → Accounted redis laws s
      → Accounted redis laws (perform_heartbeat_check redis probes s)
  unfolding perform_heartbeat_check
  heartbeat-Accounted [] s acc = acc
  heartbeat-Accounted ((target, (healthy, now)) ∷ rest) s acc =
      heartbeat-Accounted rest (modify redis (probed healthy now) (health_stats_key target) s) (
        modify-Accounted redis laws (probed healthy now) (health_stats_key target) s
          (probed-IsAccounted healthy now) acc)

  save_new-Accounted :
      (host : Option String) (rule_name : String) (rule : RoutingRule) (s : S)
      → Accounted redis laws s
      → Accounted redis laws (save_new redis host_of host rule_name rule s)
  unfolding save_new
  save_new-Accounted none rule_name rule s acc = acc
  save_new-Accounted (some host) rule_name rule s acc =
      save-Accounted redis laws (health_stats_key host) (new_status rule_name rule) s
        (record { requests = refl; probes = λ p. refl }) acc

  refresh_rules-Accounted :
      (rule_name : String) (rules : RoutingRules) (s : S)
      → Accounted redis laws s
      → Accounted redis laws (refresh_rules redis host_of rule_name rules s)
  unfolding refresh_rules
  refresh_rules-Accounted rule_name [] s acc = acc
  refresh_rules-Accounted rule_name (rule ∷ rules) s acc =
      refresh_rules-Accounted rule_name rules
        (save_new redis host_of (host_of rule) rule_name rule s)
        (save_new-Accounted (host_of rule) rule_name rule s acc)

  refresh_targets-Accounted :
      (rules : Dict RoutingRules) (s : S)
      → Accounted redis laws s
      → Accounted redis laws (refresh_targets redis host_of rules s)
  unfolding refresh_targets
  refresh_targets-Accounted [] s acc = acc
  refresh_targets-Accounted ((rule_name, rules) ∷ rest) s acc =
      refresh_targets-Accounted rest (refresh_rules redis host_of rule_name rules s)
        (refresh_rules-Accounted rule_name rules s acc)

  handle-Accounted :
      (e : Event) (s : S) → Accounted redis laws s → Accounted redis laws (handle redis host_of e s)
  unfolding handle update_request_count check_cache_hit
  handle-Accounted (finished host success now) s acc =
      modify-Accounted redis laws (counted success now) (health_stats_key host) s
        (counted-IsAccounted success now) acc
  handle-Accounted (cache_hit target) s acc =
      modify-Accounted redis laws hit (health_stats_key target) s hit-IsAccounted acc
  handle-Accounted (reset_targets targets) s acc = reset_all_stats-Accounted targets s acc
  handle-Accounted (heartbeat probes) s acc = heartbeat-Accounted probes s acc
  handle-Accounted (refresh rules) s acc = refresh_targets-Accounted rules s acc

  -- In any sequence of requests that end, cache hits, resets, heartbeats and new routes, from a store
  -- whose counters add up: the counters of every target that the store holds add up.
  pub run-Accounted :
      (es : List Event) (s : S)
      → Accounted redis laws s
      → Accounted redis laws (run redis host_of es s)
  unfolding run
  run-Accounted [] s acc = acc
  run-Accounted (e ∷ es) s acc =
      run-Accounted es (handle redis host_of e s) (handle-Accounted e s acc)
