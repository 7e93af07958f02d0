-- ===== src/Health/Targets.antt =====
-- internal/core/health/health_checker.go: under which key a target is registered, and under which its requests are
-- counted. What url.Parse gives as the host of a target is a parameter.
use mini_gateway.Common.{
  ◌≡◌, refl, ◌∙◌, String, Bool, false, List, [], ◌∷◌, Option, none, some, Option-cases, inl, inr,
  str_eq, if◌then◌else◌,
}
use mini_gateway.Config.{RoutingRule}
use mini_gateway.Health.{
  Time, TargetStatus, Redis, counted, health_stats_key, load_from_redis, modify,
  update_request_count,
}
use mini_gateway.Health.Store.{IsRedis, load_from_redis-save_to_redis}

module _ (host_of : String → Option String) where
  -- `none` is an error.
  unfoldable pub normalize_target : RoutingRule → Option String
  normalize_target rule =
      if str_eq rule.protocol "grpc" then some rule.target else host_of rule.target

  abbrev or_target : String → Option String → String
  or_target target none = target
  or_target target (some host) = host

  unfoldable pub normalize_target_host : String → String
  normalize_target_host target = or_target target (host_of target)

  -- Requests to a target that end, one after the other.
  unfoldable pub count_requests : {S : Type 0} → Redis S → String → List (Bool × Time) → S → S
  unfolding update_request_count normalize_target_host
  count_requests redis target [] s = s
  count_requests redis target ((success, now) ∷ rest) s =
      count_requests redis target rest
        (update_request_count redis (normalize_target_host target) success now s)

module _ {S : Type 0} (redis : Redis S) (laws : IsRedis redis) where
  pub modify-apart :
      (change : TargetStatus → TargetStatus) (key other : String) (s : S)
      → str_eq key other ≡ false
      → load_from_redis redis other (modify redis change key s) ≡ load_from_redis redis other s
  unfolding modify
  modify-apart change key other s apart = elim (Option-cases (load_from_redis redis key s)) [
    | inl missing ↦ rw missing refl
    | inr (stat, found) ↦
        rw found ((load_from_redis-save_to_redis redis laws key (change stat) s).1 other apart)
  ]

  -- A gRPC target with a named host is never counted. When url.Parse finds a host in the target of a gRPC rule
  -- that is not the target itself (for `localhost:50051` it takes `localhost` for the scheme and finds the host
  -- ""): the target is registered under its own name, and no requests to it, of any number, change the
  -- statistics that are kept there.
  pub count_requests-grpc :
      (host_of : String → Option String) (rule : RoutingRule) (host : String)
      → rule.protocol ≡ "grpc"
      → host_of rule.target ≡ some host
      → str_eq (health_stats_key host) (health_stats_key rule.target) ≡ false
      → (requests : List (Bool × Time)) (s : S)
      → (normalize_target host_of rule ≡ some rule.target)
        × (load_from_redis redis
              (health_stats_key rule.target)
              (count_requests host_of redis rule.target requests s)
            ≡ load_from_redis redis (health_stats_key rule.target) s)
  unfolding normalize_target count_requests update_request_count normalize_target_host
  count_requests-grpc host_of rule host grpc parsed apart [] s = (rw grpc refl, refl)
  count_requests-grpc host_of rule host grpc parsed apart ((success, now) ∷ rest) s =
      let s' =
        update_request_count redis (normalize_target_host host_of rule.target) success now s in
      let (own, ih) = count_requests-grpc host_of rule host grpc parsed apart rest s' in
      (
        own,
        ih
            ∙ rw parsed (
                modify-apart (counted success now) (health_stats_key host)
                  (health_stats_key rule.target) s apart),
      )
