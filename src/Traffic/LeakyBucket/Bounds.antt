-- ===== src/Traffic/LeakyBucket/Bounds.antt =====
-- How many requests the handler passes on.
use mini_gateway.Common.{
  ℕ, suc, ◌+◌, ◌/◌, ◌≤◌, ◌<◌, ◌≡◌, refl, String, Bool, true, false, List, [], ◌∷◌, Option, none,
  some, Dict, Outcome, returns, ◌>>=◌, Bool-cases, Option-cases, inl, inr, arith, lookup, insert,
}
use native.Mathlib.Nat.{le-div_iff_mul-le}
use mini_gateway.Traffic.{RateLimit, Verdict, passed, rejected}
use mini_gateway.Traffic.LeakyBucket.{
  Limiter, Buckets, found_or_new, new_limiter, allow, leak, allow_global, allow_key, check_route,
  check_ip, check_global, handle,
}

-- What can happen: a request of a client for a path, or a tick of one of the limiters.
pub data Event : Type 0 where
  request : String → String → Event
  global_tick : Event
  ip_tick route_tick : String → Event

abbrev leak_some : Option Limiter → Option Limiter
leak_some none = none
leak_some (some l) = some (leak l)

abbrev leak_found : String → Option Limiter → Dict Limiter → Dict Limiter
leak_found key none limiters = limiters
leak_found key (some l) limiters = insert key (leak l) limiters

abbrev pub count_passed : Verdict → ℕ
count_passed passed = 1
count_passed (rejected d key qps burst) = 0

-- The number of requests passed on by an event, and the buckets after it.
unfoldable pub step : RateLimit → Buckets → Event → Outcome (ℕ × Buckets)
unfolding handle leak lookup insert
step cfg b (request client_ip path) =
    handle cfg b client_ip path >>= λ r. returns (count_passed r.0, r.1)
step cfg b global_tick = returns (0, record b { global_limiter = leak_some b.global_limiter })
step cfg b (ip_tick key) =
    returns (0, record b { ip_limiters = leak_found key (lookup key b.ip_limiters) b.ip_limiters })
step cfg b (route_tick key) =
    returns (
      0,
      record b { route_limiters = leak_found key (lookup key b.route_limiters) b.route_limiters },
    )

unfoldable pub run : RateLimit → List Event → Buckets → Outcome (ℕ × Buckets)
unfolding step
run cfg [] b = returns (0, b)
run cfg (e ∷ es) b = step cfg b e >>= λ r. run cfg es r.1 >>= λ s. returns (r.0 + s.0, s.1)

abbrev pub global_ticks : List Event → ℕ
global_ticks [] = 0
global_ticks (global_tick ∷ es) = suc (global_ticks es)
global_ticks (e ∷ es) = global_ticks es

-- A rate at which a limiter's ticker can be made.
abbrev pub IsRate : ℕ → Type 0
IsRate qps = (0 < qps) × (qps ≤ 1000000000)

pub new_limiter-returns :
    (qps burst : ℕ)
    → IsRate qps
    → new_limiter qps burst ≡ returns (record { capacity = burst; rate = qps; queued = 0 })
unfolding new_limiter
new_limiter-returns qps burst h =
    let ticks : 1 ≤ 1000000000 / qps = (le-div_iff_mul-le h.0).1 (omega (arith, h.1)) in
    ground (arith, h.0, ticks)

allow_key-returns :
    (key : String) (qps burst : ℕ) (limiters : Dict Limiter)
    → IsRate qps
    → (r : Bool × Dict Limiter) × (allow_key key qps burst limiters ≡ returns r)
unfolding allow_key found_or_new
allow_key-returns key qps burst limiters h = elim (Option-cases (lookup key limiters)) [
  | inl missing ↦ rw (missing, new_limiter-returns qps burst h) ((_, refl))
  | inr (l, found) ↦ rw found ((_, refl))
]

allow-room : (l : Limiter) → (allow l).0 ≡ true → (allow l).1.queued ≡ suc l.queued
unfolding allow
allow-room l h = ground (arith, h)

allow-full : (l : Limiter) → (allow l).0 ≡ false → (allow l).1.queued ≡ l.queued
unfolding allow
allow-full l h = ground (arith, h)

allow-capacity : (l : Limiter) → (allow l).1.capacity ≡ l.capacity
unfolding allow
allow-capacity l = ground arith

allow-bounded : (l : Limiter) → l.queued ≤ l.capacity → (allow l).1.queued ≤ (allow l).1.capacity
unfolding allow
allow-bounded l h = ground arith

leak-capacity : (l : Limiter) → (leak l).capacity ≡ l.capacity
unfolding leak
leak-capacity l = ground arith

leak-bounded : (l : Limiter) → l.queued ≤ l.capacity → (leak l).queued ≤ (leak l).capacity
unfolding leak
leak-bounded l h = ground arith

leak-queued : (l : Limiter) → l.queued ≤ (leak l).queued + 1
unfolding leak
leak-queued l = ground arith

leak_some-some : (o : Option Limiter) (l : Limiter) → o ≡ some l → leak_some o ≡ some (leak l)
leak_some-some o l e = rw e refl

global_ticks-cons :
    (e : Event) (es : List Event) → global_ticks (e ∷ es) ≡ global_ticks (e ∷ []) + global_ticks es
global_ticks-cons (request client_ip path) es = omega arith
global_ticks-cons global_tick es = omega arith
global_ticks-cons (ip_tick key) es = omega arith
global_ticks-cons (route_tick key) es = omega arith

pub handle-on :
    (cfg : RateLimit) (b : Buckets) (client_ip path : String)
    → cfg.enabled ≡ true
    → handle cfg b client_ip path ≡ check_global cfg b client_ip path
unfolding handle
handle-on cfg b client_ip path on = simp on

pub allow_global-some :
    (o : Option Limiter) (l : Limiter)
    → o ≡ some l
    → allow_global o ≡ ((allow l).0, some (allow l).1)
unfolding allow_global
allow_global-some o l e = rw e refl

count_passed-le : (v : Verdict) → count_passed v ≤ 1
count_passed-le passed = omega arith
count_passed-le (rejected d key qps burst) = omega arith

-- Below the global limiter: the request is answered, and the global limiter is left alone.
abbrev Answered : Outcome (Verdict × Buckets) → Buckets → Type 0
Answered o b = (r : Verdict × Buckets) × (o ≡ returns r) × (r.1.global_limiter ≡ b.global_limiter)

module _ (cfg : RateLimit) (few : 2 ≤ cfg.qps) (rate : cfg.qps ≤ 1000000000) where
  check_route-returns : (b : Buckets) (path : String) → Answered (check_route cfg b path) b
  unfolding check_route
  check_route-returns b path =
      let (r, e) = allow_key-returns path cfg.qps cfg.burst b.route_limiters (omega arith, rate) in
      rw e ((_, refl, refl))

  check_ip-returns :
      (b : Buckets) (client_ip path : String) → Answered (check_ip cfg b client_ip path) b
  unfolding check_ip
  check_ip-returns b client_ip path =
      let (r, e) =
        allow_key-returns client_ip (cfg.qps / 2) (cfg.burst / 2) b.ip_limiters
          (omega arith, omega arith) in
      elim (Bool-cases r.0) [
        | inl asked ↦ rw (e, asked) (check_route-returns (record b { ip_limiters = r.1 }) path)
        | inr refused ↦ rw (e, refused) ((_, refl, refl))
      ]

  -- A request is answered, and passed on only if the global limiter had room and took it.
  check_global-returns :
      (b : Buckets) (l : Limiter) (client_ip path : String)
      → b.global_limiter ≡ some l
      → (r : Verdict × Buckets) × (check_global cfg b client_ip path ≡ returns r)
        × (r.1.global_limiter ≡ some (allow l).1)
        × (count_passed r.0 + l.queued ≤ (allow l).1.queued)
  unfolding check_global
  check_global-returns b l client_ip path e =
      let asked = allow_global-some b.global_limiter l e in
      elim (Bool-cases (allow l).0) [
        | inl room ↦
            let (r, returned, kept) =
              check_ip-returns (record b { global_limiter = some (allow l).1 }) client_ip path in
            rw (asked, room)
              (r, returned, kept, omega (arith, count_passed-le r.0, allow-room l room))
        | inr full ↦ rw (asked, full) ((_, refl, refl, omega (arith, allow-full l full)))
      ]

  -- What an event does to the global limiter, and how many requests it passes on.
  abbrev Stepped : Buckets → Limiter → Event → Type 0
  Stepped b l e =
      (r : ℕ × Buckets) × (step cfg b e ≡ returns r)
      × (l' : Limiter) × (r.1.global_limiter ≡ some l')
      × (l'.capacity ≡ l.capacity)
      × (l'.queued ≤ l'.capacity)
      × (r.0 + l.queued ≤ l'.queued + global_ticks (e ∷ []))

  step-Stepped :
      (b : Buckets) (l : Limiter) (e : Event)
      → cfg.enabled ≡ true
      → b.global_limiter ≡ some l
      → l.queued ≤ l.capacity
      → Stepped b l e
  unfolding step
  step-Stepped b l (request client_ip path) on g h =
      let (r, returned, kept, counted) = check_global-returns b l client_ip path g in
      rw (handle-on cfg b client_ip path on, returned)
        ((_, refl, (allow l).1, kept, allow-capacity l, allow-bounded l h, omega (arith, counted)))
  step-Stepped b l global_tick on g h =
      ((
        _,
        refl,
        leak l,
        leak_some-some b.global_limiter l g,
        leak-capacity l,
        leak-bounded l h,
        omega (arith, leak-queued l),
      ))
  step-Stepped b l (ip_tick key) on g h = ((_, refl, l, g, refl, h, omega arith))
  step-Stepped b l (route_tick key) on g h = ((_, refl, l, g, refl, h, omega arith))

  -- At a rate of 2 to 10^9 requests a second, in any sequence of requests and ticks the handler never
  -- panics, and passes on at most as many requests as the global limiter has room for at the start and
  -- ticks.
  pub run-bounded :
      (es : List Event) (b : Buckets) (l : Limiter)
      → cfg.enabled ≡ true
      → b.global_limiter ≡ some l
      → l.queued ≤ l.capacity
      → (r : ℕ × Buckets) × (run cfg es b ≡ returns r)
        × (r.0 + l.queued ≤ l.capacity + global_ticks es)
  unfolding run
  run-bounded [] b l on g h = ((0, b), refl, omega (arith, h))
  run-bounded (e ∷ es) b l on g h =
      let (r, stepped, l', g', same, h', counted) = step-Stepped b l e on g h in
      let (s, ran, rest) = run-bounded es r.1 l' on g' h' in
      rw (stepped, ran) ((_, refl, omega (arith, same, counted, rest, global_ticks-cons e es)))
