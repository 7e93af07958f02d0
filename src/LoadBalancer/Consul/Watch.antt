-- ===== src/LoadBalancer/Consul/Watch.antt =====
-- What the Consul balancer selects after any polls of its rules.
use native.Mathlib.Nat.{mod-eq_of_lt, mod-lt}
use mini_gateway.Common.{
  ℕ, ◌%◌, ◌<◌, ◌≡◌, String, false, List, [], ◌∷◌, Option, none, some, Dict, lookup, returns, length,
  get_elem?-some, Elem, Elem-get_elem?, refl, ap, sym, subst, arith, if◌then◌else◌,
}
use mini_gateway.LoadBalancer.Consul.{
  ConsulBalancer, new_consul_balancer, Poll, failed, fetched, updated, watch_rules, timed,
  timed_or_fallback, select_target,
}

-- The rules of the last poll with a well-formed value, and the empty map before there is one.
abbrev pub last_good : Dict (List String) → List Poll → Dict (List String)
last_good rules [] = rules
last_good rules (failed ∷ polls) = last_good rules polls
last_good rules (fetched index none ∷ polls) = last_good rules polls
last_good rules (fetched index (some new) ∷ polls) = last_good new polls

watch_rules-cons :
    (poll : Poll) (polls : List Poll) (cb : ConsulBalancer)
    → cb.stopped ≡ false
    → watch_rules (poll ∷ polls) cb ≡ watch_rules polls (updated poll cb)
unfolding watch_rules
watch_rules-cons poll polls cb run = λ j. if run j then cb else watch_rules polls (updated poll cb)

watch_rules-last_good :
    (polls : List Poll) (cb : ConsulBalancer)
    → cb.stopped ≡ false
    → ((watch_rules polls cb).rules ≡ last_good cb.rules polls)
      × ((watch_rules polls cb).stopped ≡ false)
unfolding watch_rules
watch_rules-last_good [] cb run = (refl, run)
watch_rules-last_good (failed ∷ polls) cb run =
    subst (λ t. (t.rules ≡ last_good cb.rules polls) × (t.stopped ≡ false))
      (sym (watch_rules-cons failed polls cb run)) (watch_rules-last_good polls cb run)
watch_rules-last_good (fetched index none ∷ polls) cb run =
    subst (λ t. (t.rules ≡ last_good cb.rules polls) × (t.stopped ≡ false))
      (sym (watch_rules-cons (fetched index none) polls cb run))
      (watch_rules-last_good polls (record cb { last_index = index }) run)
watch_rules-last_good (fetched index (some new) ∷ polls) cb run =
    subst (λ t. (t.rules ≡ last_good new polls) × (t.stopped ≡ false))
      (sym (watch_rules-cons (fetched index (some new)) polls cb run))
      (watch_rules-last_good polls (record cb { last_index = index; rules = new }) run)

-- The targets that a selection for the path has to be among.
abbrev pub candidates : Option (List String) → List String → List String
candidates none offered = offered
candidates (some []) offered = offered
candidates (some (target ∷ targets)) offered = target ∷ targets

timed-Elem :
    (list : List String) (now : ℕ)
    → 0 < length list
    → length list < 4294967296
    → (t : String) × (timed list now ≡ returns t) × Elem t list
unfolding timed
timed-Elem list now some_target few =
    let same : length list % 4294967296 ≡ length list = mod-eq_of_lt few in
    let i = (now % 4294967296) % length list in
    let (t, at) = get_elem?-some list i (omega (arith, mod-lt (now % 4294967296) some_target)) in
    (t, rw same (ground (arith, at)), Elem-get_elem? list i t at)

timed_or_fallback-Elem :
    (found : Option (List String)) (offered : List String) (now : ℕ)
    → length (candidates found offered) < 4294967296
    → (0 < length (candidates found offered)
        → (t : String) × (timed_or_fallback found offered now ≡ returns t)
          × Elem t (candidates found offered))
      × (candidates found offered ≡ [] → timed_or_fallback found offered now ≡ returns "")
unfolding timed_or_fallback
timed_or_fallback-Elem none [] now few = (λ h. elim h [ ], λ e. refl)
timed_or_fallback-Elem none (o ∷ os) now few =
    let (t, served, m) = timed-Elem (o ∷ os) now (omega arith) few in
    (λ h. (t, ground (arith, served), m), λ e. absurd (omega (arith, ap length e)))
timed_or_fallback-Elem (some []) [] now few = (λ h. elim h [ ], λ e. refl)
timed_or_fallback-Elem (some []) (o ∷ os) now few =
    let (t, served, m) = timed-Elem (o ∷ os) now (omega arith) few in
    (λ h. (t, ground (arith, served), m), λ e. absurd (omega (arith, ap length e)))
timed_or_fallback-Elem (some (t ∷ ts)) offered now few =
    (λ h. timed-Elem (t ∷ ts) now h few, λ e. absurd (omega (arith, ap length e)))

-- After any polls of the rules: a selection for a path takes one of the targets that the last
-- well-formed value gives the path, at any time of the clock, or, when there is no such value or it
-- gives the path no target, one of the offered targets, and "" if none is offered. It never panics. The
-- lists have fewer than 2^32 entries.
pub select_target-watched :
    (polls : List Poll) (path : String) (offered : List String) (now : ℕ)
    → length (candidates (lookup path (last_good [] polls)) offered) < 4294967296
    → (0 < length (candidates (lookup path (last_good [] polls)) offered)
        → (t : String) × (select_target (watch_rules polls new_consul_balancer) offered path now
            ≡ returns t)
          × Elem t (candidates (lookup path (last_good [] polls)) offered))
      × (candidates (lookup path (last_good [] polls)) offered ≡ []
          → select_target (watch_rules polls new_consul_balancer) offered path now ≡ returns "")
unfolding select_target new_consul_balancer
select_target-watched polls path offered now few =
    let rules = (watch_rules-last_good polls new_consul_balancer refl).0 in
    rw rules (timed_or_fallback-Elem (lookup path (last_good [] polls)) offered now few)
