-- ===== src/LoadBalancer/Consul.antt =====
-- internal/core/loadbalancer/consul.go: a balancer whose rules come from a key of Consul. What a poll of
-- that key gives, and the clock at a selection, are arguments.
pub mod Watch
mod Tests
use mini_gateway.Common.{
  ℕ, ◌%◌, String, Bool, true, false, List, [], ◌∷◌, Option, none, some, Dict, lookup, Outcome,
  returns, panics, or_panic, length, get_elem?, ltb, ◌==◌, if◌then◌else◌,
}
use mini_gateway.LoadBalancer.{LoadBalancer, Request}

-- `last_index` is the variable of the watcher, and `stopped` tells that the stop channel is closed.
pub record ConsulBalancer : Type 0 where
  pub rules : Dict (List String)
  pub last_index : ℕ
  pub stopped : Bool

unfoldable pub new_consul_balancer : ConsulBalancer
new_consul_balancer = record { rules = []; last_index = 0; stopped = false }

-- A poll fails or finds no key, or gives the key's index and its value, decoded if it is well formed.
pub data Poll : Type 0 where
  failed : Poll
  fetched : ℕ → Option (Dict (List String)) → Poll

-- What one round of the loop does with its poll.
unfoldable pub updated : Poll → ConsulBalancer → ConsulBalancer
updated failed cb = cb
updated (fetched index none) cb = record cb { last_index = index }
updated (fetched index (some rules)) cb = record cb { last_index = index; rules = rules }

-- The rounds of `watchRules`; the loop ends when it finds the balancer stopped.
unfoldable pub watch_rules : List Poll → ConsulBalancer → ConsulBalancer
unfolding updated
watch_rules [] cb = cb
watch_rules (poll ∷ polls) cb =
    let cb' = watch_rules polls (updated poll cb) in if cb.stopped then cb else cb'

unfoldable pub stop : ConsulBalancer → ConsulBalancer
stop cb = record cb { stopped = true }

-- `list[uint32(now) % uint32(len(list))]`.
unfoldable pub timed : List String → ℕ → Outcome String
timed list now =
    if length list % 4294967296 == 0
    then panics
    else or_panic (get_elem? list ((now % 4294967296) % (length list % 4294967296)))

-- The targets of the path in the rules, or else those that are offered.
unfoldable pub timed_or_fallback : Option (List String) → List String → ℕ → Outcome String
unfolding timed
timed_or_fallback (some (target ∷ targets)) offered now = timed (target ∷ targets) now
timed_or_fallback none offered now = if length offered == 0 then returns "" else timed offered now
timed_or_fallback (some []) offered now =
    if length offered == 0 then returns "" else timed offered now

unfoldable pub select_target : ConsulBalancer → List String → String → ℕ → Outcome String
unfolding timed_or_fallback
select_target cb targets path now = timed_or_fallback (lookup path cb.rules) targets now

-- A selection changes nothing.
abbrev pub consul : ℕ → LoadBalancer ConsulBalancer
consul now = record {
  select_target = λ cb targets r. (select_target cb targets r.path now, cb);
  type_name = "consul";
}
