-- ===== src/Traffic/LeakyBucket/Faults.antt =====
-- Small limits: the halves that the limiters of a client get.
use mini_gateway.Common.{
  ℕ, ◌/◌, ◌≤◌, ◌≡◌, refl, String, true, false, none, some, Dict, lookup, insert, returns, ◌>>=◌,
  panics, arith,
}
use mini_gateway.Traffic.{RateLimit, Dimension, rejected}
use mini_gateway.Traffic.LeakyBucket.{
  Limiter, Buckets, new_limiter, found_or_new, allow, allow_key, check_ip, check_global, handle,
}
use mini_gateway.Traffic.LeakyBucket.Bounds.{
  IsRate, new_limiter-returns, allow_global-some, handle-on,
}

allow_key-missing :
    (key : String) (qps burst : ℕ) (limiters : Dict Limiter)
    → lookup key limiters ≡ none
    → allow_key key qps burst limiters
      ≡ (new_limiter qps burst) >>= λ l. returns ((allow l).0, insert key (allow l).1 limiters)
unfolding allow_key found_or_new
allow_key-missing key qps burst limiters missing = rw missing refl

-- A new limiter without capacity refuses.
allow_key-no_room :
    (key : String) (qps : ℕ) (limiters : Dict Limiter)
    → IsRate qps
    → lookup key limiters ≡ none
    → allow_key key qps 0 limiters
      ≡ returns (false, insert key (record { capacity = 0; rate = qps; queued = 0 }) limiters)
unfolding allow
allow_key-no_room key qps limiters rate missing =
    rw (allow_key-missing key qps 0 limiters missing, new_limiter-returns qps 0 rate) refl

module _ (cfg : RateLimit) (b : Buckets) (l : Limiter) (client_ip path : String) where
  -- At one request a second, the first request of a client that the global limiter lets through makes
  -- a limiter of rate 1 / 2 = 0, and the division by it ends the process.
  pub handle-rate_one_panics :
      cfg.enabled ≡ true
      → cfg.qps ≡ 1
      → b.global_limiter ≡ some l
      → (allow l).0 ≡ true
      → lookup client_ip b.ip_limiters ≡ none
      → handle cfg b client_ip path ≡ panics
  unfolding check_global check_ip new_limiter
  handle-rate_one_panics on one g room missing =
      rw
        (
          handle-on cfg b client_ip path on,
          allow_global-some b.global_limiter l g,
          room,
          one,
          allow_key-missing client_ip (1 / 2) (cfg.burst / 2) b.ip_limiters missing,
        )
        refl

  -- With a burst of 0 or 1, a request of a new client is rejected by the client's limiter, whose
  -- capacity is 0, after the global limiter took it: its entry there is not given back.
  pub handle-small_burst :
      cfg.enabled ≡ true
      → IsRate (cfg.qps / 2)
      → cfg.burst ≤ 1
      → b.global_limiter ≡ some l
      → (allow l).0 ≡ true
      → lookup client_ip b.ip_limiters ≡ none
      → (b' : Buckets) × (handle cfg b client_ip path
          ≡ returns (rejected Dimension.ip client_ip (cfg.qps / 2) (cfg.burst / 2), b'))
        × (b'.global_limiter ≡ some (allow l).1)
  unfolding check_global check_ip
  handle-small_burst on rate small g room missing =
      let half : cfg.burst / 2 ≡ 0 = omega (arith, small) in
      rw
        (
          handle-on cfg b client_ip path on,
          allow_global-some b.global_limiter l g,
          room,
          half,
          allow_key-no_room client_ip (cfg.qps / 2) b.ip_limiters rate missing,
        )
        ((_, refl, refl))
