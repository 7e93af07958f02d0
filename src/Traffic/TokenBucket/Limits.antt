-- ===== src/Traffic/TokenBucket/Limits.antt =====
-- When the token buckets let a request through, and whose limiters it touches.
use mini_gateway.Common.{
  ℕ, ◌/◌, ◌≤◌, ◌≡◌, ◌≢◌, ◌↔◌, ◌⊎◌, inl, inr, String, true, List, [], ◌∷◌, some, Dict, lookup,
  insert, lookup-insert, Outcome, returns, >>=-eq-returns, returns-injective, All, eq_iff,
  Bool-cases, if◌then◌else◌, refl, sym, ap, ◌∙◌, arith,
}
use mini_gateway.Traffic.{RateLimit, Dimension}
use mini_gateway.Traffic.TokenBucket.{
  Ratelimit, TokenBucket, Reading, Request, Verdict, passed, rejected, check_limit, found_or_new,
  check_key, check_global, after_passing, check_route, check_ip, check_all, handle, run,
}

module _ {L : Type 0} (limiter : Ratelimit L) where
  check_key-returns :
      (dimension : Dimension) (key : String) (qps burst : ℕ) (reading : Reading) (limiters : Dict L)
      (c : Verdict × Dict L)
      → check_key limiter dimension key qps burst reading limiters ≡ returns c
      → (l : L) × (found_or_new limiter (lookup key limiters) qps burst ≡ returns l)
        × (c ≡ (
          (check_limit limiter dimension key reading l).0,
          insert key (check_limit limiter dimension key reading l).1 limiters,
        ))
  unfolding check_key
  check_key-returns dimension key qps burst reading limiters c e =
      let (l, found, made) =
        >>=-eq-returns (found_or_new limiter (lookup key limiters) qps burst) _ e in
      (l, found, ground (arith, made))

  -- A check changes the limiter of its own key only.
  check_key-other :
      (dimension : Dimension) (key other : String) (qps burst : ℕ) (reading : Reading)
      (limiters : Dict L) (c : Verdict × Dict L)
      → check_key limiter dimension key qps burst reading limiters ≡ returns c
      → key ≢ other
      → lookup other c.1 ≡ lookup other limiters
  check_key-other dimension key other qps burst reading limiters c e distinct =
      let (l, found, made) = check_key-returns dimension key qps burst reading limiters c e in
      let l' = (check_limit limiter dimension key reading l).1 in
      ap (λ p. lookup other p.1) made
      ∙ ground (arith, lookup-insert key other l' limiters, eq_iff key other)

  after_passing-returns :
      (v : Verdict) (b : TokenBucket L) (f : TokenBucket L → Outcome (Verdict × TokenBucket L))
      (c : Verdict × TokenBucket L)
      → after_passing limiter (v, b) f ≡ returns c
      → ((v ≡ passed) × (f b ≡ returns c)) ⊎ ((v ≢ passed) × (c ≡ (v, b)))
  after_passing-returns passed b f c e = inl (refl, e)
  after_passing-returns (rejected dimension key wait) b f c e = inr (λ h. cc, ground (arith, e))

  check_limit_iff :
      (dimension : Dimension) (key : String) (reading : Reading) (l : L)
      → ((check_limit limiter dimension key reading l).0 ≡ passed)
        ↔ ((limiter.take l reading.inside).0 ≤ reading.before)
  unfolding check_limit
  check_limit_iff dimension key reading l = ground arith

  -- What another client and another route see of a request.
  abbrev pub Same : String → String → TokenBucket L → TokenBucket L → Type 0
  Same client path b b' =
      (lookup client b'.ip_limiters ≡ lookup client b.ip_limiters)
      × (lookup path b'.route_limiters ≡ lookup path b.route_limiters)

  check_route-Same :
      (cfg : RateLimit) (r : Request) (b : TokenBucket L) (c : Verdict × TokenBucket L)
      (client path : String)
      → r.path ≢ path
      → check_route limiter cfg r b ≡ returns c
      → Same client path b c.1
  unfolding check_route
  check_route-Same cfg r b c client path p e =
      let (k, checked, made) =
        >>=-eq-returns
          (check_key limiter Dimension.route r.path cfg.qps cfg.burst r.route_reading
            b.route_limiters)
          _ e in
      let made' = returns-injective made in
      (
        ap (λ q. lookup client q.1.ip_limiters) (sym made'),
        ap (λ q. lookup path q.1.route_limiters) (sym made')
            ∙ check_key-other Dimension.route r.path path cfg.qps cfg.burst r.route_reading
                b.route_limiters k checked p,
      )

  check_ip-Same :
      (cfg : RateLimit) (r : Request) (b : TokenBucket L) (c : Verdict × TokenBucket L)
      (client path : String)
      → r.client_ip ≢ client
      → r.path ≢ path
      → check_ip limiter cfg r b ≡ returns c
      → Same client path b c.1
  unfolding check_ip
  check_ip-Same cfg r b c client path i p e =
      let (k, checked, made) =
        >>=-eq-returns
          (check_key limiter Dimension.ip r.client_ip (cfg.qps / 2) (cfg.burst / 2) r.ip_reading
            b.ip_limiters)
          _ e in
      let b' : TokenBucket L = record b { ip_limiters = k.1 } in
      let kept =
        check_key-other Dimension.ip r.client_ip client (cfg.qps / 2) (cfg.burst / 2) r.ip_reading
          b.ip_limiters k checked i in
      elim (after_passing-returns k.0 b' (check_route limiter cfg r) c made) [
        | inl (passes, routed) ↦
            let (same_ip, same_route) = check_route-Same cfg r b' c client path p routed in
            (same_ip ∙ kept, same_route)
        | inr (waits, stays) ↦ (
          ap (λ q. lookup client q.1.ip_limiters) stays ∙ kept,
          ap (λ q. lookup path q.1.route_limiters) stays,
        )
      ]

  handle-Same :
      (cfg : RateLimit) (r : Request) (b : TokenBucket L) (c : Verdict × TokenBucket L)
      (client path : String)
      → r.client_ip ≢ client
      → r.path ≢ path
      → handle limiter cfg r b ≡ returns c
      → Same client path b c.1
  unfolding handle check_all
  handle-Same cfg r b c client path i p e = elim (Bool-cases cfg.enabled) [
    | inr off ↦
        let stays =
          returns-injective
            (sym (λ j. if off j then check_all limiter cfg r b else returns (passed, b)) ∙ e) in
        (
          ap (λ q. lookup client q.1.ip_limiters) (sym stays),
          ap (λ q. lookup path q.1.route_limiters) (sym stays),
        )
    | inl on ↦
        let asked = check_global limiter r.global_reading b.global_limiter in
        let b' : TokenBucket L = record b { global_limiter = asked.1 } in
        let all : check_all limiter cfg r b ≡ returns c =
          sym (λ j. if on j then check_all limiter cfg r b else returns (passed, b)) ∙ e in
        elim (after_passing-returns asked.0 b' (check_ip limiter cfg r) c all) [
          | inl (passes, rest) ↦ check_ip-Same cfg r b' c client path i p rest
          | inr (waits, stays) ↦ (
            ap (λ q. lookup client q.1.ip_limiters) stays,
            ap (λ q. lookup path q.1.route_limiters) stays,
          )
        ]
  ]

  -- Requests of other clients on other routes, of any number and with any verdicts, leave the limiter of a
  -- client and that of a route as they are, or still unmade: only the global limiter is shared.
  pub run-Same :
      (cfg : RateLimit) (requests : List Request) (b : TokenBucket L)
      (d : List Verdict × TokenBucket L) (client path : String)
      → All (λ r. (r.client_ip ≢ client) × (r.path ≢ path)) requests
      → run limiter cfg requests b ≡ returns d
      → Same client path b d.1
  unfolding run
  run-Same cfg [] b d client path h e =
      let stays = returns-injective e in
      (
        ap (λ q. lookup client q.1.ip_limiters) (sym stays),
        ap (λ q. lookup path q.1.route_limiters) (sym stays),
      )
  run-Same cfg (r ∷ rs) b d client path h e =
      let (c, handled, more) = >>=-eq-returns (handle limiter cfg r b) _ e in
      let (d', ran, made) = >>=-eq-returns (run limiter cfg rs c.1) _ more in
      let last = returns-injective made in
      let first = handle-Same cfg r b c client path h.0.0 h.0.1 handled in
      let rest = run-Same cfg rs c.1 d' client path h.1 ran in
      (
        ap (λ q. lookup client q.1.ip_limiters) (sym last) ∙ rest.0 ∙ first.0,
        ap (λ q. lookup path q.1.route_limiters) (sym last) ∙ rest.1 ∙ first.1,
      )

  -- One check, after which the rest runs only if it passed.
  stage_iff :
      (v : Verdict) (b : TokenBucket L) (f : TokenBucket L → Outcome (Verdict × TokenBucket L))
      {P Q : Type 0}
      → (v ≡ passed) ↔ P
      → ((b' : TokenBucket L) × (f b ≡ returns (passed, b'))) ↔ Q
      → ((b' : TokenBucket L) × (after_passing limiter (v, b) f ≡ returns (passed, b'))) ↔ (P × Q)
  stage_iff passed b f p q = (λ h. (p.0 refl, q.0 h), λ h. q.1 h.1)
  stage_iff (rejected dimension key wait) b f p q =
      (λ h. absurd (refused h.1), λ h. absurd (distinct (p.1 h.0)))
    where
      refused :
          {b' : TokenBucket L}
          → ¬ (
              ◌≡◌ {A = Outcome (Verdict × TokenBucket L)}
                (returns (rejected dimension key wait, b))
                (returns (passed, b')))
      refused e = cc

      distinct : ¬ (rejected dimension key wait ≡ passed)
      distinct e = cc

  -- What a limiter answers lies not after the first reading of the clock.
  abbrev pub IsDue : Reading → L → Type 0
  IsDue reading l = (limiter.take l reading.inside).0 ≤ reading.before

  route_passes_iff :
      (cfg : RateLimit) (r : Request) (b : TokenBucket L) (l : L)
      → found_or_new limiter (lookup r.path b.route_limiters) cfg.qps cfg.burst ≡ returns l
      → ((b' : TokenBucket L) × (check_route limiter cfg r b ≡ returns (passed, b')))
        ↔ IsDue r.route_reading l
  unfolding check_route check_key
  route_passes_iff cfg r b l found =
      let asked = check_limit limiter Dimension.route r.path r.route_reading l in
      let due = check_limit_iff Dimension.route r.path r.route_reading l in
      let b' : TokenBucket L = record b {
        route_limiters = insert r.path asked.1 b.route_limiters;
      } in
      let step : check_route limiter cfg r b ≡ returns (asked.0, b') = rw found refl in
      (
        λ h. due.0 (ap (λ p. p.0) (returns-injective (sym step ∙ h.1))),
        λ d. (b', step ∙ ap (λ v. returns (v, b')) (due.1 d)),
      )

  ip_passes_iff :
      (cfg : RateLimit) (r : Request) (b : TokenBucket L) (i l : L)
      → found_or_new limiter (lookup r.client_ip b.ip_limiters) (cfg.qps / 2) (cfg.burst / 2)
        ≡ returns i
      → found_or_new limiter (lookup r.path b.route_limiters) cfg.qps cfg.burst ≡ returns l
      → ((b' : TokenBucket L) × (check_ip limiter cfg r b ≡ returns (passed, b')))
        ↔ (IsDue r.ip_reading i × IsDue r.route_reading l)
  unfolding check_ip check_key
  ip_passes_iff cfg r b i l own found = rw own (
      stage_iff (check_limit limiter Dimension.ip r.client_ip r.ip_reading i).0 _
        (check_route limiter cfg r) (check_limit_iff Dimension.ip r.client_ip r.ip_reading i)
        (route_passes_iff cfg r _ l found))

  -- With rate limits on, and the limiters that the request meets (those of its client and its route may
  -- be made for it): a request passes exactly when each of the three answers a time that is not after
  -- the reading of the clock before it was asked.
  pub handle_passes_iff :
      (cfg : RateLimit) (r : Request) (b : TokenBucket L) (g i l : L)
      → cfg.enabled ≡ true
      → b.global_limiter ≡ some g
      → found_or_new limiter (lookup r.client_ip b.ip_limiters) (cfg.qps / 2) (cfg.burst / 2)
        ≡ returns i
      → found_or_new limiter (lookup r.path b.route_limiters) cfg.qps cfg.burst ≡ returns l
      → ((b' : TokenBucket L) × (handle limiter cfg r b ≡ returns (passed, b')))
        ↔ (IsDue r.global_reading g × IsDue r.ip_reading i × IsDue r.route_reading l)
  unfolding handle check_all check_global
  handle_passes_iff cfg r b g i l on shared own found =
      let asked = check_limit limiter Dimension.global "" r.global_reading g in
      let b' : TokenBucket L = record b { global_limiter = some asked.1 } in
      let step : handle limiter cfg r b
          ≡ after_passing limiter (asked.0, b') (check_ip limiter cfg r) =
        (λ j. if on j then check_all limiter cfg r b else returns (passed, b)) ∙ λ j.
        (let made = check_global limiter r.global_reading (shared j) in
          after_passing limiter (made.0, record b { global_limiter = made.1 })
            (check_ip limiter cfg r)) in
      let (due, passes) =
        stage_iff asked.0 b' (check_ip limiter cfg r)
          (check_limit_iff Dimension.global "" r.global_reading g)
          (ip_passes_iff cfg r b' i l own found) in
      (
        λ h. (let (d, rest) = due (h.0, sym step ∙ h.1) in (d, rest.0, rest.1)),
        λ h. (let (b'', e) = passes (h.0, (h.1, h.2)) in (b'', step ∙ e)),
      )
