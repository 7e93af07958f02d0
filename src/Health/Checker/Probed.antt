-- ===== src/Health/Checker/Probed.antt =====
-- What a round of the heartbeat makes of a target's status, from what the clients answer.
use mini_gateway.Common.{
  ℕ, ◌+◌, ◌%◌, ◌≡◌, ◌⊎◌, refl, sym, ap, ◌∙◌, String, true-ne-false, none, some, Dict, lookup,
  Bool-cases, inl, inr,
}
use mini_gateway.Config.Views.{HasDistinctKeys}
use mini_gateway.Health.{
  Time, TargetStatus, Redis, health_stats_key, load_from_redis, is_probed, with_result, probed,
}
use mini_gateway.Health.Store.{IsRedis, to_seconds, truncated}
use mini_gateway.Health.Checker.{HealthChecker, Probes, probe, heartbeat_check}
use mini_gateway.Health.Checker.Beats.{heartbeat_check-beaten}
use mini_gateway.Health.Checker.Healthy.{IsHealthy, HasProbe, probe_iff, is_probed_iff}

-- What a round adds to the two counts of a status's probes.
abbrev pub AfterProbe : Probes → String → String → TargetStatus → ℕ → ℕ → Type 0
AfterProbe probes host path stat succeeded failed =
    (IsHealthy probes host path stat
      × (succeeded ≡ (stat.probe_success_count + 1) % 18446744073709551616)
      × (failed ≡ stat.probe_failure_count))
    ⊎ ((HasProbe stat × (¬ IsHealthy probes host path stat))
        × (succeeded ≡ stat.probe_success_count)
        × (failed ≡ (stat.probe_failure_count + 1) % 18446744073709551616))
    ⊎ ((¬ HasProbe stat)
        × (succeeded ≡ stat.probe_success_count)
        × (failed ≡ stat.probe_failure_count))

-- The status with its second counts and its times as a round leaves them.
abbrev pub status_with : TargetStatus → ℕ → ℕ → Time → TargetStatus
status_with stat succeeded failed now = record stat {
  probe_request_count = (stat.probe_request_count + 1) % 18446744073709551616;
  probe_success_count = succeeded;
  probe_failure_count = failed;
  last_probe_time = to_seconds now;
  last_request_time = to_seconds stat.last_request_time;
}

probed-AfterProbe :
    (probes : Probes) (paths : Dict String) (host path : String) (now : Time) (stat : TargetStatus)
    → lookup host paths ≡ some path
    → (succeeded failed : ℕ) × (truncated (probed (probe probes paths host path stat) now stat)
        ≡ status_with stat succeeded failed now)
      × AfterProbe probes host path stat succeeded failed
unfolding probed with_result
probed-AfterProbe probes paths host path now stat at =
    let (is_healthy, healthy_is) = probe_iff probes paths host path stat at in
    let (has_probe, probe_is) = is_probed_iff stat in
    elim (Bool-cases (is_probed stat.protocol)) [
      | inr skipped ↦ (
        stat.probe_success_count,
        stat.probe_failure_count,
        rw skipped refl,
        inr (inr (λ h. true-ne-false (sym (probe_is h) ∙ skipped), refl, refl)),
      )
      | inl made ↦ elim (Bool-cases (probe probes paths host path stat)) [
        | inl healthy ↦ (
          (stat.probe_success_count + 1) % 18446744073709551616,
          stat.probe_failure_count,
          rw (made, healthy) refl,
          inl (is_healthy healthy, refl, refl),
        )
        | inr unhealthy ↦ (
          stat.probe_success_count,
          (stat.probe_failure_count + 1) % 18446744073709551616,
          rw (made, unhealthy) refl,
          inr (
              inl (
                (has_probe made, λ h. true-ne-false (sym (healthy_is h) ∙ unhealthy)),
                refl,
                refl,
              )),
        )
      ]
    ]

module _ {S : Type 0} (redis : Redis S) (laws : IsRedis redis) where
  -- One round of the heartbeat, whose targets are the keys of a map. The status of a target that Redis holds gets one
  -- probe request more and the time of the probe, cut to seconds. Its probe is a success if its protocol is "http" or
  -- empty and a HEAD request for the target's path is answered with a status below 400, if it is "grpc" and the service
  -- named by the path ("" for "/health") is serving, or if it is "websocket" and the address and the path can be
  -- dialled; for another protocol neither count changes, and else it is a failure. The other fields stay, with the
  -- time of the last request cut to seconds. The status of a host that is no target does not change.
  pub heartbeat_check_lem :
      (probes : Probes) (now : String → Time) (h : HealthChecker S) (host path : String)
      (stat : TargetStatus) (other : String)
      → HasDistinctKeys h.health_paths
      → lookup host h.health_paths ≡ some path
      → load_from_redis redis (health_stats_key host) h.store ≡ some stat
      → lookup other h.health_paths ≡ none
      → ((succeeded failed : ℕ) × (load_from_redis redis
              (health_stats_key host)
              (heartbeat_check probes redis now h).store
            ≡ some (status_with stat succeeded failed (now host)))
          × AfterProbe probes host path stat succeeded failed)
        × (load_from_redis redis (health_stats_key other) (heartbeat_check probes redis now h).store
            ≡ load_from_redis redis (health_stats_key other) h.store)
  heartbeat_check_lem probes now h host path stat other d at held absent =
      let paths = h.health_paths in
      let (succeeded, failed, same, after) =
        probed-AfterProbe probes paths host path (now host) stat at in
      (
        (
          succeeded,
          failed,
          heartbeat_check-beaten redis laws probes now h host d ∙ rw (at, held) (ap some same),
          after,
        ),
        heartbeat_check-beaten redis laws probes now h other d ∙ rw absent refl,
      )
