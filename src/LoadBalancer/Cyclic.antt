-- ===== src/LoadBalancer/Cyclic.antt =====
-- A balancer that reads a fixed list round and round, one entry for each request: what a full round
-- through the interface of interface.go serves. Both round-robin balancers are such readers.
use native.Mathlib.Nat.{mod-eq_of_lt, mul-add-mod_self_right, mod-lt, div-add-mod'}
use mini_gateway.Common.{
  ℕ, suc, ◌+◌, ◌-◌, ◌*◌, ◌/◌, ◌%◌, ◌≤◌, ◌<◌, ◌≡◌, refl, String, List, [], ◌∷◌, ◌++◌, map, arith,
  returns, or_panic, length, get_elem?, take, drop, get_elem?-some, drop-get_elem?, take_all, All,
  All-take, All-drop, length-take, length-drop, map-append, take-append-drop,
}
use mini_gateway.LoadBalancer.{LoadBalancer, Request, serve}

-- At position m the balancer serves entry m of the list, counted round, and moves to m + 1.
abbrev pub Reads :
    {S : Type 0}
    → LoadBalancer S
    → List String
    → List String
    → (Request → Type 0)
    → ℕ
    → (ℕ → S → Type 0)
    → Type 0
Reads {S} lb targets full Fits bound At =
    (m : ℕ) (s : S) (r : Request)
    → At m s
    → Fits r
    → m + 1 < bound
    → (s' : S) × (lb.select_target s targets r ≡ (or_panic (get_elem? full (m % length full)), s'))
      × At (m + 1) s'

module _ {S : Type 0} (lb : LoadBalancer S) (targets full : List String) (Fits : Request → Type 0)
    (bound : ℕ) (At : ℕ → S → Type 0) (reads : Reads lb targets full Fits bound At) where
  -- As long as the round is not over, the entries from position i on are served.
  serve_block :
      (m q i : ℕ) (s : S) (reqs : List Request)
      → At m s
      → All Fits reqs
      → m ≡ q * length full + i
      → i + length reqs ≤ length full
      → m + length reqs < bound
      → ((serve lb s targets reqs).0 ≡ map returns (take (length reqs) (drop i full)))
        × At (m + length reqs) (serve lb s targets reqs).1
  unfolding serve
  serve_block m q i s [] here fit at fits room =
      let same : m ≡ m + 0 = omega arith in (refl, rw (← same) here)
  serve_block m q i s (r ∷ rs) here (fit, fit_rest) at fits room =
      let (s', call, here') = reads m s r here fit (omega arith) in
      let (t, e) = get_elem?-some full i (omega arith) in
      let pos : m % length full ≡ i =
        rw (at, mul-add-mod_self_right) (mod-eq_of_lt (omega arith)) in
      let (outs, there) =
        serve_block (m + 1) q (suc i) s' rs here' fit_rest (omega arith) (omega arith)
          (omega arith) in
      let same : m + 1 + length rs ≡ m + suc (length rs) = omega arith in
      rw (call, pos, e, drop-get_elem? full i t e, outs) (refl, rw same at there)

  serve-append :
      (s : S) (xs ys : List Request)
      → serve lb s targets (xs ++ ys) ≡ (
        (serve lb s targets xs).0 ++ (serve lb (serve lb s targets xs).1 targets ys).0,
        (serve lb (serve lb s targets xs).1 targets ys).1,
      )
  unfolding serve
  serve-append s [] ys = refl
  serve-append s (r ∷ rs) ys = rw (serve-append (lb.select_target s targets r).1 rs ys)

  -- A round in two parts: up to the end of the list, and from its start.
  serve_two_blocks :
      (m q i : ℕ) (s : S) (xs ys : List Request)
      → At m s
      → All Fits xs
      → All Fits ys
      → m ≡ q * length full + i
      → i + length xs ≡ length full
      → length ys ≡ i
      → m + length full < bound
      → ((serve lb s targets (xs ++ ys)).0 ≡ map returns (drop i full ++ take i full))
        × At (m + length full) (serve lb s targets (xs ++ ys)).1
  serve_two_blocks m q i s xs ys here fit_xs fit_ys at first second room =
      let (outs, there) = serve_block m q i s xs here fit_xs at (omega arith) (omega arith) in
      let (outs', there') =
        serve_block (m + length xs) (suc q) 0 (serve lb s targets xs).1 ys there fit_ys
          (omega arith) (omega arith) (omega arith) in
      let same : m + length xs + length ys ≡ m + length full = omega arith in
      rw
        (
          serve-append s xs ys,
          outs,
          outs',
          take_all (length xs) (drop i full) (omega (arith, length-drop i full)),
          map-append returns (drop i full) (take i full),
          second,
        )
        (refl, rw same at there')

  -- With one request for each entry, the whole list is served, from the position on and then from
  -- its start.
  pub serve_full :
      (m : ℕ) (s : S) (reqs : List Request)
      → At m s
      → All Fits reqs
      → 0 < length full
      → length reqs ≡ length full
      → m + length full < bound
      → ((serve lb s targets reqs).0
          ≡ map returns (drop (m % length full) full ++ take (m % length full) full))
        × At (m + length full) (serve lb s targets reqs).1
  serve_full m s reqs here fit some_entry round room =
      let i = m % length full in
      let below : i < length full = mod-lt m some_entry in
      let front = length-take (length full - i) reqs (omega arith) in
      let back = length-drop (length full - i) reqs in
      rw (take-append-drop (length full - i) reqs) at (
        serve_two_blocks m (m / length full) i s (take (length full - i) reqs)
          (drop (length full - i) reqs) here (All-take Fits (length full - i) reqs fit)
          (All-drop Fits (length full - i) reqs fit) (omega (arith, div-add-mod' m (length full)))
          (omega arith) (omega arith) room)
