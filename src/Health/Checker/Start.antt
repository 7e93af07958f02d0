-- ===== src/Health/Checker/Start.antt =====
-- internal/core/health/health_checker.go: InitHealthChecker and clearRedisKeys, with Redis's KEYS and a pipeline of DEL as
-- parameters.
use mini_gateway.Common.{
  ◌≡◌, ◌⊎◌, refl, sym, ap, ◌∙◌, String, Bool, true, false, true-ne-false, List, [], ◌∷◌, Option,
  none, some, Dict, lookup, Elem, Bool-cases, inl, inr, length, ◌==◌, arith, if◌then◌else◌,
}
use mini_gateway.Common.Int.{ℤ}
use mini_gateway.Config.{RoutingRule, RoutingRules}
use mini_gateway.Health.{Redis, health_stats_key, load_from_redis, loaded}
use mini_gateway.Health.Store.{IsRedis}
use mini_gateway.Health.Checker.{HealthChecker, refresh_checker}
use mini_gateway.Health.Checker.Registered.{
  last_rule, found_path, found_status, refresh_checker_lem,
}

-- `keys` may fail; the deletions are sent together, and the answer tells whether they succeeded.
pub record KeyCommands (S : Type 0) : Type 0 where
  pub keys : S → String → Option (List String)
  pub delete_all : List String → S → S × Bool

abbrev patterns : List String
patterns = "mg:health:stats:*" ∷ "mg:cache:*" ∷ "mg:cache:req_count:*" ∷ []

-- What Redis documents of the two: KEYS mg:health:stats:* finds every key with a hash under it that starts with
-- "mg:health:stats:", a deletion that succeeds leaves nothing under its keys, and none adds anything.
pub record IsKeyCommands {S : Type 0} (redis : Redis S) (commands : KeyCommands S) : Type 0 where
  pub keys-all :
      (s : S) (host : String) (found : List String)
      → commands.keys s "mg:health:stats:*" ≡ some found
      → (redis.hget_all s (health_stats_key host) ≡ some []) ⊎ Elem (health_stats_key host) found
  pub delete_all-gone :
      (s : S) (found : List String) (key : String)
      → Elem key found
      → (commands.delete_all found s).1 ≡ true
      → redis.hget_all (commands.delete_all found s).0 key ≡ some []
  pub delete_all-empty :
      (s : S) (found : List String) (key : String)
      → redis.hget_all s key ≡ some []
      → redis.hget_all (commands.delete_all found s).0 key ≡ some []

module _ {S : Type 0} (commands : KeyCommands S) where
  abbrev deleted_keys : Option (List String) → S → S × Bool
  deleted_keys none s = (s, false)
  deleted_keys (some found) s = if length found == 0 then (s, true) else commands.delete_all found s

  -- The first error ends the loop.
  unfoldable pub clear_patterns : List String → S → S × Bool
  clear_patterns [] s = (s, true)
  clear_patterns (pattern ∷ rest) s =
      let (s', ok) = deleted_keys (commands.keys s pattern) s in
      let later = clear_patterns rest s' in if ok then later else (s', false)

  unfoldable pub clear_redis_keys : S → S × Bool
  unfolding clear_patterns
  clear_redis_keys s = clear_patterns patterns s

  -- An error of the clearing is only logged.
  unfoldable pub init_health_checker :
      Redis S → (RoutingRule → Option String) → Dict RoutingRules → ℤ → S → HealthChecker S
  unfolding clear_redis_keys refresh_checker
  init_health_checker redis host_of rules interval s =
      refresh_checker host_of redis rules interval (record {
        health_paths = [];
        heartbeat_interval = interval;
        store = (clear_redis_keys s).0;
      })

module _ {S : Type 0} (redis : Redis S) (commands : KeyCommands S)
    (laws : IsKeyCommands redis commands) where
  deleted_keys-empty :
      (found : Option (List String)) (s : S) (key : String)
      → redis.hget_all s key ≡ some []
      → redis.hget_all (deleted_keys commands found s).0 key ≡ some []
  deleted_keys-empty none s key e = e
  deleted_keys-empty (some found) s key e = elim (Bool-cases (length found == 0)) [
    | inl no_key ↦ rw no_key e
    | inr keys ↦ rw keys (laws.delete_all-empty s found key e)
  ]

  clear_patterns-empty :
      (rest : List String) (s : S) (key : String)
      → redis.hget_all s key ≡ some []
      → redis.hget_all (clear_patterns commands rest s).0 key ≡ some []
  unfolding clear_patterns
  clear_patterns-empty [] s key e = e
  clear_patterns-empty (pattern ∷ rest) s key e =
      let found = commands.keys s pattern in
      let e' = deleted_keys-empty found s key e in
      elim (Bool-cases (deleted_keys commands found s).1) [
        | inl ok ↦ rw ok (clear_patterns-empty rest (deleted_keys commands found s).0 key e')
        | inr failed ↦ rw failed e'
      ]

  deleted_keys-gone :
      (found : List String) (s : S) (key : String)
      → Elem key found
      → (deleted_keys commands (some found) s).1 ≡ true
      → redis.hget_all (deleted_keys commands (some found) s).0 key ≡ some []
  deleted_keys-gone [] s key h e = absurd h
  deleted_keys-gone (k ∷ ks) s key h e =
      let some_key : (length (k ∷ ks) == 0) ≡ false = ground arith in
      let gone : (commands.delete_all (k ∷ ks) s).1 ≡ true = rw some_key at e in
      rw some_key (laws.delete_all-gone s (k ∷ ks) key h gone)

  deleted_keys-pattern :
      (host : String) (found : Option (List String)) (s : S)
      → commands.keys s "mg:health:stats:*" ≡ found
      → (deleted_keys commands found s).1 ≡ true
      → redis.hget_all (deleted_keys commands found s).0 (health_stats_key host) ≡ some []
  deleted_keys-pattern host none s known ok = absurd (true-ne-false (sym ok))
  deleted_keys-pattern host (some found) s known ok = elim (laws.keys-all s host found known) [
    | inl empty ↦ deleted_keys-empty (some found) s (health_stats_key host) empty
    | inr listed ↦ deleted_keys-gone found s (health_stats_key host) listed ok
  ]

  clear_patterns-first :
      (pattern : String) (rest : List String) (s : S)
      → (clear_patterns commands (pattern ∷ rest) s).1 ≡ true
      → (deleted_keys commands (commands.keys s pattern) s).1 ≡ true
  unfolding clear_patterns
  clear_patterns-first pattern rest s e =
      elim (Bool-cases (deleted_keys commands (commands.keys s pattern) s).1) [
        | inl ok ↦ ok
        | inr failed ↦ absurd (true-ne-false (sym e ∙ rw failed refl))
      ]

  clear_redis_keys-empty :
      (s : S) (host : String)
      → (clear_redis_keys commands s).1 ≡ true
      → redis.hget_all (clear_redis_keys commands s).0 (health_stats_key host) ≡ some []
  unfolding clear_redis_keys clear_patterns
  clear_redis_keys-empty s host done =
      let rest : List String = "mg:cache:*" ∷ "mg:cache:req_count:*" ∷ [] in
      let found = commands.keys s "mg:health:stats:*" in
      let ok = clear_patterns-first "mg:health:stats:*" rest s done in
      let gone = deleted_keys-pattern host found s refl ok in
      rw ok
        (clear_patterns-empty rest (deleted_keys commands found s).0 (health_stats_key host) gone)

  -- When the health checker starts and the clearing of Redis succeeds, nothing is left of an earlier run: a host
  -- has a status exactly if some rule has that host. The status is a new one for the last such rule,
  -- whose path the host has.
  pub init_health_checker_lem :
      IsRedis redis
      → (host_of : RoutingRule → Option String) (rules : Dict RoutingRules) (interval : ℤ) (s : S)
        (host : String)
      → (clear_redis_keys commands s).1 ≡ true
      → let found = last_rule host_of host rules none in
        let h = init_health_checker commands redis host_of rules interval s in
        (lookup host h.health_paths ≡ found_path found)
        × (load_from_redis redis (health_stats_key host) h.store ≡ found_status none found)
  unfolding init_health_checker load_from_redis loaded
  init_health_checker_lem is_redis host_of rules interval s host done =
      let h : HealthChecker S = record {
        health_paths = [];
        heartbeat_interval = interval;
        store = (clear_redis_keys commands s).0;
      } in
      let (path, status) = refresh_checker_lem redis is_redis host_of rules interval h host in
      (
        path,
        status
            ∙ ap (λ hash. found_status (loaded hash) (last_rule host_of host rules none))
                (clear_redis_keys-empty s host done),
      )
