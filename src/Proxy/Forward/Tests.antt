-- ===== src/Proxy/Forward/Tests.antt =====
-- A target that the store holds, behind a backend that is unavailable.
use mini_gateway.Common.{◌≡◌, some}
use mini_gateway.Health.{health_stats_key, save_to_redis, load_from_redis}
use mini_gateway.Health.Store.{truncated, load_from_redis-save_to_redis}
use mini_gateway.Health.Tests.{Store, store, store-IsRedis, status, empty}

abbrev held : Store
held = save_to_redis store (health_stats_key "a") status empty

held_lem : load_from_redis store (health_stats_key "a") held ≡ some (truncated status)
held_lem = (load_from_redis-save_to_redis store store-IsRedis (health_stats_key "a") status empty).0
