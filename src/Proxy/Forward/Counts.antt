-- ===== src/Proxy/Forward/Counts.antt =====
-- What a forwarded request adds to the statistics of its target.
use mini_gateway.Common.{ℕ, ◌≡◌, refl, String, Bool, true, false, List, [], ◌∷◌, some}
use mini_gateway.Health.{
  Time, TargetStatus, Redis, increment, counted, health_stats_key, load_from_redis, modify,
  update_request_count,
}
use mini_gateway.Health.Store.{IsRedis, truncated, load_from_redis-save_to_redis}
use mini_gateway.Proxy.Forward.{unavailable, proxy_direct, proxy_with_pool}

module _ {S : Type 0} (redis : Redis S) (laws : IsRedis redis) (host : String) (now : Time) where
  -- The calls of `UpdateRequestCount` that a forwarded request makes.
  abbrev pub count_all : List Bool → S → S
  count_all [] s = s
  count_all (success ∷ rest) s = count_all rest (update_request_count redis host success now s)

  update-loaded :
      (success : Bool) (stat : TargetStatus) (s : S)
      → load_from_redis redis (health_stats_key host) s ≡ some stat
      → load_from_redis redis
          (health_stats_key host)
          (update_request_count redis host success now s)
        ≡ some (truncated (counted success now stat))
  unfolding update_request_count modify
  update-loaded success stat s e = rw e (
      (load_from_redis-save_to_redis redis laws (health_stats_key host) (counted success now stat)
        s).0)

  -- How many requests, successes and failures more a status has.
  abbrev pub HasAdded : List Bool → S → ℕ → ℕ → ℕ → Type 0
  HasAdded counts s requests successes failures =
      (stat' : TargetStatus) × (load_from_redis redis (health_stats_key host) (count_all counts s)
        ≡ some stat')
      × (stat'.request_count ≡ requests)
      × (stat'.success_count ≡ successes)
      × (stat'.failure_count ≡ failures)

  -- When the backend of a known target is unavailable, the pooled proxy adds one request, which failed.
  -- The direct proxy adds two, one that failed and one that succeeded, though it answers 502 as well.
  pub count_all-unavailable :
      (stat : TargetStatus) (s : S)
      → load_from_redis redis (health_stats_key host) s ≡ some stat
      → HasAdded
          (proxy_with_pool true unavailable).counts
          s
          (increment stat.request_count)
          stat.success_count
          (increment stat.failure_count)
        × HasAdded
            (proxy_direct true unavailable).counts
            s
            (increment (increment stat.request_count))
            (increment stat.success_count)
            (increment stat.failure_count)
        × ((proxy_direct true unavailable).status ≡ (proxy_with_pool true unavailable).status)
  unfolding proxy_direct proxy_with_pool counted
  count_all-unavailable stat s e =
      let first = update-loaded false stat s e in
      let after = update_request_count redis host false now s in
      let second = update-loaded true (truncated (counted false now stat)) after first in
      ((_, first, refl, refl, refl), (_, second, refl, refl, refl), refl)
