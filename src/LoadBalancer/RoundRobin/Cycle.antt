-- ===== src/LoadBalancer/RoundRobin/Cycle.antt =====
-- A full round of the round-robin balancer serves every target once, in order, from where it stood.
use native.Mathlib.Nat.{mod-eq_of_lt, mod-lt}
use mini_gateway.Common.{
  ◌+◌, ◌%◌, ◌<◌, ◌≡◌, refl, String, List, [], ◌∷◌, ◌++◌, map, some, arith, returns, length,
  get_elem?, take, drop, get_elem?-some, All,
}
use mini_gateway.LoadBalancer.{Request, serve}
use mini_gateway.LoadBalancer.Cyclic.{Reads, serve_full}
use mini_gateway.LoadBalancer.RoundRobin.{RoundRobin, uint32_mod, select_target, round_robin}

-- A call over targets, fewer than 2^32, serves the entry at the counter and moves the counter on.
pub select_target_lem :
    (rr : RoundRobin) (targets : List String)
    → 0 < length targets
    → length targets < uint32_mod
    → (t : String) × (get_elem? targets (rr.next % length targets) ≡ some t)
      × (select_target rr targets ≡ (returns t, record rr { next = (rr.next + 1) % uint32_mod }))
unfolding select_target
select_target_lem rr [] h short = absurd (omega arith)
select_target_lem rr (x ∷ xs) h short =
    let (t, e) = get_elem?-some (x ∷ xs) (rr.next % length (x ∷ xs)) (mod-lt rr.next h) in
    (t, e, rw (mod-eq_of_lt short, e) (ground arith))

module _ (targets : List String) (some_target : 0 < length targets)
    (short : length targets < uint32_mod) where
  reads_targets : Reads round_robin targets targets (λ r. Unit {0}) uint32_mod (λ m rr. rr.next ≡ m)
  reads_targets m rr r here fit room =
      let (t, e, call) = select_target_lem rr targets some_target short in
      (
        record rr { next = (rr.next + 1) % uint32_mod },
        rw (call, ← here, e),
        rw (here, mod-eq_of_lt room),
      )

  any_request : (reqs : List Request) → All (λ r. Unit {0}) reqs
  any_request [] = tt
  any_request (r ∷ rs) = (tt, any_request rs)

  -- With as many requests as targets, every target is served once, in list order, starting at the
  -- counter's position and going on from the start of the list; the counter has moved on by a round.
  -- The list is not empty and shorter than 2^32, and the counter does not reach 2^32 in the round.
  pub serve_each_once :
      (rr : RoundRobin) (reqs : List Request)
      → length reqs ≡ length targets
      → rr.next + length targets < uint32_mod
      → ((serve round_robin rr targets reqs).0
          ≡ map returns
              (drop (rr.next % length targets) targets ++ take (rr.next % length targets) targets))
        × ((serve round_robin rr targets reqs).1.next ≡ rr.next + length targets)
  serve_each_once rr reqs round room =
      serve_full round_robin targets targets (λ r. Unit {0}) uint32_mod (λ m s. s.next ≡ m)
        reads_targets rr.next rr reqs refl (any_request reqs) some_target round room
