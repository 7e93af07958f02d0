-- ===== src/Traffic/TokenBucket/Tests.antt =====
-- A limiter that gives out one permit for a unit of time, the earliest that is free.
use mini_gateway.Common.{
  ℕ, ◌+◌, ◌≡◌, ◌≢◌, true, false, String, [], ◌∷◌, some, returns, panics, leb, ◌==◌, if◌then◌else◌,
  eq_iff, str_eq, refl,
}
use mini_gateway.Traffic.{RateLimit, Dimension}
use mini_gateway.Traffic.TokenBucket.{
  Ratelimit, TokenBucket, Request, Verdict, passed, new_token_bucket, run,
}

abbrev limiter : Ratelimit ℕ
limiter = record {
  new = λ qps burst. if qps == 0 then panics else returns 0;
  take = λ free now. if leb free now then (now, now + 1) else (free, free + 1);
}

abbrev cfg : RateLimit
cfg = record { enabled = true; qps = 10; burst = 20 }

abbrev buckets : TokenBucket ℕ
buckets = record { global_limiter = some 0; ip_limiters = []; route_limiters = [] }

new_buckets : new_token_bucket limiter cfg ≡ returns buckets
unfolding new_token_bucket
new_buckets = refl

abbrev request : String → ℕ → Request
request client now = record {
  client_ip = client;
  path = "/a";
  global_reading = record { before = now; inside = now };
  ip_reading = record { before = now; inside = now };
  route_reading = record { before = now; inside = now };
}

abbrev after : TokenBucket ℕ
after = record {
  global_limiter = some 7;
  ip_limiters = ("10.0.0.1", 6) ∷ [];
  route_limiters = ("/a", 6) ∷ [];
}

-- The second request at the same time waits for the global limiter.
two_requests :
    run limiter cfg (request "10.0.0.1" 5 ∷ request "10.0.0.1" 5 ∷ []) buckets
    ≡ returns (passed ∷ Verdict.rejected Dimension.global "" 1 ∷ [], after)
unfolding run
two_requests = refl

distinct : (s t : String) → str_eq s t ≡ false → s ≢ t
distinct s t h e = cc ((eq_iff s t).1 e, h)

other_client : ◌≢◌ {A = String} "10.0.0.1" "10.0.0.2"
other_client = distinct "10.0.0.1" "10.0.0.2" refl

other_route : ◌≢◌ {A = String} "/a" "/b"
other_route = distinct "/a" "/b" refl
