-- ===== src/Health/Store.antt =====
-- A status is read back as it was saved, but for the nanoseconds of its times.
use mini_gateway.Common.{◌≡◌, refl, String, false, [], ◌∷◌, some, Dict, lookup, str_eq}
use mini_gateway.Health.{
  Time, TargetStatus, Value, text, count, seconds, Redis, fields_of, stat_of, loaded, save_to_redis,
  load_from_redis,
}

-- What Redis documents of HMSET and HGETALL: the fields given are set, and no other hash changes.
pub record IsRedis {S : Type 0} (redis : Redis S) : Type 0 where
  pub hget_all-same :
      (s : S) (key : String) (fields : Dict Value)
      → (hash : Dict Value) × (redis.hget_all (redis.hmset s key fields) key ≡ some hash)
        × ((field : String) (value : Value)
            → lookup field fields ≡ some value
            → lookup field hash ≡ some value)
  pub hget_all-other :
      (s : S) (key other : String) (fields : Dict Value)
      → str_eq key other ≡ false
      → redis.hget_all (redis.hmset s key fields) other ≡ redis.hget_all s other

abbrev pub to_seconds : Time → Time
to_seconds t = record { unix = t.unix; nanos = 0 }

abbrev pub truncated : TargetStatus → TargetStatus
truncated stat = record stat {
  last_probe_time = to_seconds stat.last_probe_time;
  last_request_time = to_seconds stat.last_request_time;
}

stat_of-fields :
    (stat : TargetStatus) (hash : Dict Value)
    → ((field : String) (value : Value)
        → lookup field (fields_of stat) ≡ some value
        → lookup field hash ≡ some value)
    → stat_of hash ≡ truncated stat
unfolding stat_of lookup
stat_of-fields stat hash has =
    rw
      (
        has "rule" (text stat.rule) refl,
        has "url" (text stat.url) refl,
        has "protocol" (text stat.protocol) refl,
        has "request_count" (count stat.request_count) refl,
        has "success_count" (count stat.success_count) refl,
        has "cache_hit_count" (count stat.cache_hit_count) refl,
        has "failure_count" (count stat.failure_count) refl,
        has "probe_request_count" (count stat.probe_request_count) refl,
        has "probe_success_count" (count stat.probe_success_count) refl,
        has "probe_failure_count" (count stat.probe_failure_count) refl,
        has "last_probe_time" (seconds stat.last_probe_time.unix) refl,
        has "last_request_time" (seconds stat.last_request_time.unix) refl,
      )
      refl

loaded-some :
    (hash : Dict Value) (field : String) (value : Value)
    → lookup field hash ≡ some value
    → loaded (some hash) ≡ some (stat_of hash)
unfolding loaded lookup
loaded-some [] field value h = cc
loaded-some (f ∷ fs) field value h = refl

module _ {S : Type 0} (redis : Redis S) (laws : IsRedis redis) where
  -- A status that was saved is read back with its times cut to seconds, and no other target's changes.
  pub load_from_redis-save_to_redis :
      (key : String) (stat : TargetStatus) (s : S)
      → (load_from_redis redis key (save_to_redis redis key stat s) ≡ some (truncated stat))
        × ((other : String)
            → str_eq key other ≡ false
            → load_from_redis redis other (save_to_redis redis key stat s)
              ≡ load_from_redis redis other s)
  unfolding load_from_redis lookup
  load_from_redis-save_to_redis key stat s =
      let (hash, read, has) = laws.hget_all-same s key (fields_of stat) in
      (
        rw
            (
              read,
              loaded-some hash "rule" (text stat.rule) (has "rule" (text stat.rule) refl),
              stat_of-fields stat hash has,
            )
            refl,
        λ other apart. rw (laws.hget_all-other s key other (fields_of stat) apart) refl,
      )
