-- ===== src/Health/Checker/Beats.antt =====
-- A round of the heartbeat.
use mathlib.Core.Option
use mini_gateway.Common.{
  ◌≡◌, refl, sym, ap, Bool, false, List, map, subst, ◌∙◌, String, [], ◌∷◌, Option, none, some, Dict,
  lookup, str_eq, eq_iff, Bool-cases, Option-cases, inl, inr,
}
use mini_gateway.Config.Views.{HasDistinctKeys}
use mini_gateway.Health.{
  Time, TargetStatus, Redis, health_stats_key, load_from_redis, modify, probed, save_to_redis,
  perform_heartbeat_check,
}
use mini_gateway.Health.Store.{IsRedis, truncated, load_from_redis-save_to_redis}
use mini_gateway.Health.Accounts.{Accounted, heartbeat-Accounted}
use mini_gateway.Health.Targets.{modify-apart}
use mini_gateway.Health.Checker.{HealthChecker, Probes, probe, check_each, heartbeat_check}
use mini_gateway.Health.Checker.Registered.{health_stats_key-apart}

module _ (probes : Probes) (paths : Dict String) (now : String → Time) (host : String) where
  -- The status after a round, if the host has this path.
  abbrev pub beaten : Option String → Option TargetStatus → Option TargetStatus
  beaten none old = old
  beaten (some path) old =
      Option.map (λ stat. truncated (probed (probe probes paths host path stat) (now host) stat))
        old

module _ {S : Type 0} (redis : Redis S) (laws : IsRedis redis) where
  pub modify_own :
      (change : TargetStatus → TargetStatus) (key : String) (s : S)
      → load_from_redis redis key (modify redis change key s)
        ≡ Option.map (λ stat. truncated (change stat)) (load_from_redis redis key s)
  unfolding modify
  modify_own change key s = elim (Option-cases (load_from_redis redis key s)) [
    | inl missing ↦ rw missing missing
    | inr (stat, found) ↦
        rw found ((load_from_redis-save_to_redis redis laws key (change stat) s).0)
  ]

  module _ (probes : Probes) (paths : Dict String) (now : String → Time) (host : String) where
    check_each-beaten :
        (rest : Dict String) (s : S)
        → HasDistinctKeys rest
        → load_from_redis redis (health_stats_key host) (check_each probes redis paths now rest s)
          ≡ beaten probes paths now host
              (lookup host rest)
              (load_from_redis redis (health_stats_key host) s)
    unfolding check_each lookup
    check_each-beaten [] s d = refl
    check_each-beaten ((target, path) ∷ rest) s (once, d) =
        let change : TargetStatus → TargetStatus =
          λ stat. probed (probe probes paths target path stat) (now target) stat in
        let s' = modify redis change (health_stats_key target) s in
        let ih = check_each-beaten rest s' d in
        elim (Bool-cases (str_eq target host)) [
          | inr differ ↦ rw differ (
              ih
              ∙ ap (beaten probes paths now host (lookup host rest)) (
                  modify-apart redis laws change (health_stats_key target) (health_stats_key host) s
                    (health_stats_key-apart target host differ)))
          | inl same ↦
              let one_host : target ≡ host = (eq_iff target host).0 same in
              let unseen : lookup host rest ≡ none =
                subst (λ t. lookup t rest ≡ none) one_host once in
              rw same (
                ih
                ∙ ap
                    (λ o.
                      beaten probes paths now host o
                        (load_from_redis redis (health_stats_key host) s'))
                    unseen
                ∙ subst
                    (λ t.
                      load_from_redis redis (health_stats_key t) s'
                      ≡ Option.map
                          (λ stat. truncated (probed (probe probes paths t path stat) (now t) stat))
                          (load_from_redis redis (health_stats_key t) s))
                    one_host (modify_own change (health_stats_key target) s))
        ]

  -- A host whose path is among the checker's.
  pub heartbeat_check-beaten :
      (probes : Probes) (now : String → Time) (h : HealthChecker S) (host : String)
      → HasDistinctKeys h.health_paths
      → load_from_redis redis (health_stats_key host) (heartbeat_check probes redis now h).store
        ≡ beaten probes h.health_paths now host
            (lookup host h.health_paths)
            (load_from_redis redis (health_stats_key host) h.store)
  unfolding heartbeat_check
  heartbeat_check-beaten probes now h host d =
      check_each-beaten probes h.health_paths now host h.health_paths h.store d

  modify-same :
      (change other : TargetStatus → TargetStatus) (key : String) (s : S)
      → ((stat : TargetStatus) → load_from_redis redis key s ≡ some stat → change stat ≡ other stat)
      → modify redis change key s ≡ modify redis other key s
  unfolding modify
  modify-same change other key s same = elim (Option-cases (load_from_redis redis key s)) [
    | inl missing ↦ rw missing refl
    | inr (stat, found) ↦ rw found (ap (λ x. save_to_redis redis key x s) (same stat found))
  ]

  abbrev outcome : Probes → Dict String → String → String → Option TargetStatus → Bool
  outcome probes paths target path none = false
  outcome probes paths target path (some stat) = probe probes paths target path stat

  -- A round that asks the clients is a round of `perform_heartbeat_check` over the same targets, with some
  -- ends of the probes.
  pub check_each-refines :
      (probes : Probes) (paths : Dict String) (now : String → Time) (rest : Dict String) (s : S)
      → (ends : List (String × (Bool × Time))) × (map (λ e. e.0) ends ≡ map (λ e. e.0) rest)
        × (check_each probes redis paths now rest s ≡ perform_heartbeat_check redis ends s)
  unfolding check_each perform_heartbeat_check
  check_each-refines probes paths now [] s = ([], refl, refl)
  check_each-refines probes paths now ((target, path) ∷ rest) s =
      let key = health_stats_key target in
      let change : TargetStatus → TargetStatus =
        λ stat. probed (probe probes paths target path stat) (now target) stat in
      let healthy = outcome probes paths target path (load_from_redis redis key s) in
      let step : modify redis change key s ≡ modify redis (probed healthy (now target)) key s =
        modify-same change (probed healthy (now target)) key s (λ stat found. rw found refl) in
      let (ends, same, e) = check_each-refines probes paths now rest (modify redis change key s) in
      (
        (target, (healthy, now target)) ∷ ends,
        ap (◌∷◌ target) same,
        e ∙ ap (perform_heartbeat_check redis ends) step,
      )

  -- The counters of every target still add up after a round, whatever the clients answer.
  pub heartbeat_check-Accounted :
      (probes : Probes) (now : String → Time) (h : HealthChecker S)
      → Accounted redis laws h.store
      → Accounted redis laws (heartbeat_check probes redis now h).store
  unfolding heartbeat_check
  heartbeat_check-Accounted probes now h acc =
      let (ends, same, e) = check_each-refines probes h.health_paths now h.health_paths h.store in
      subst (Accounted redis laws) (sym e)
        (heartbeat-Accounted redis laws (λ rule. none) ends h.store acc)
