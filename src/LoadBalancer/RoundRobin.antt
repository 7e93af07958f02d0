-- ===== src/LoadBalancer/RoundRobin.antt =====
-- internal/core/loadbalancer/round_robin.go. The counter is a uint32 and wraps; logging and tracing
-- are left out.
pub mod Cycle
use mini_gateway.Common.{
  ℕ, ◌+◌, ◌%◌, String, List, Outcome, returns, panics, or_panic, length, get_elem?, ◌==◌,
  if◌then◌else◌,
}
use mini_gateway.LoadBalancer.{LoadBalancer, Request}

pub record RoundRobin : Type 0 where
  pub next : ℕ

abbrev pub uint32_mod : ℕ
uint32_mod = 4294967296

unfoldable pub new_round_robin : RoundRobin
new_round_robin = record { next = 0 }

-- A uint32 of the number of targets is zero where 2^32 divides that number, and Go then panics.
unfoldable pub select_target : RoundRobin → List String → Outcome String × RoundRobin
select_target rr targets =
    if length targets == 0
    then (returns "", rr)
    else if length targets % uint32_mod == 0
    then (panics, rr)
    else (
      or_panic (get_elem? targets (rr.next % (length targets % uint32_mod))),
      record rr { next = (rr.next + 1) % uint32_mod },
    )

abbrev pub round_robin : LoadBalancer RoundRobin
round_robin = record {
  select_target = λ rr targets r. select_target rr targets;
  type_name = "round-robin";
}
