-- ===== src/Gateway/Status/Cached.antt =====
-- The number that the status page gives a path: the requests counted less those that were forwarded.
use Prim.Native.Nat.{Ordering}
use text.Mathlib.TextPositions.{compare_refl}
use text.Mathlib.TextEquality.{eq_iff}
use mini_gateway.Common.{
  ℕ, ◌+◌, ◌-◌, ◌<◌, ◌≡◌, refl, sym, ap, ◌∙◌, arith, String, Bool, true, false, true-ne-false,
  none-ne-some, some-injective, List, All, [], ◌∷◌, map, Option, none, some, Dict, eq_refl, lookup,
  insert, lookup-insert, str_eq, Bool-cases, inl, inr, if◌then◌else◌, returns,
}
use mini_gateway.Common.Int.{ℤ, pos, two_63}
use mini_gateway.Config.{RoutingRules}
use mini_gateway.Health.{TargetStatus}
use mini_gateway.Cache.{req_count_key}
use mini_gateway.Cache.Client.{Commands, PathCount}
use mini_gateway.Cache.Client.Increments.{IsRedis, increments, batch_get_path_req_count-increments}
use mini_gateway.Gateway.Status.{
  lowered, count_map, lower_found, lower_all, path_less, insert_by_path, sort_by_path, path_stats,
  get_cached_path_stats,
}

-- The requests that the targets of a path's rules have counted.
abbrev pub forwarded : String → List TargetStatus → ℕ
forwarded path [] = 0
forwarded path (stat ∷ stats) =
    let rest = forwarded path stats in
    if str_eq stat.rule path then stat.request_count + rest else rest

abbrev pub IsSmall : TargetStatus → Type 0
IsSmall stat = stat.request_count < two_63

lowered-pos :
    (n : ℕ) (stat : TargetStatus)
    → n < two_63
    → IsSmall stat
    → lowered (pos n) stat ≡ pos (n - stat.request_count)
unfolding lowered
lowered-pos n stat few small = ground arith

path_less_self : (a : String) → path_less a a ≡ false
path_less_self a =
    ap (λ (o : Ordering). elim o as (λ o. Bool) [ Ordering.lt ↦ true | _ ↦ false ]) (compare_refl a)

path_less-ne : (a b : String) → path_less a b ≡ true → str_eq a b ≡ false
path_less-ne a b less = elim (Bool-cases (str_eq a b)) [
  | inl e ↦
      (let same = ap (λ t. path_less t b) ((eq_iff a b).0 e) ∙ path_less_self b in
        absurd (true-ne-false (sym less ∙ same)))
  | inr e ↦ e
]

lookup-insert_by_path :
    (path : String) (e : String × ℤ) (ds : Dict ℤ)
    → lookup path (insert_by_path e ds) ≡ lookup path (e ∷ ds)
unfolding lookup insert_by_path
lookup-insert_by_path path e [] = refl
lookup-insert_by_path path e (d ∷ ds) = elim (Bool-cases (path_less d.0 e.0)) [
  | inl less ↦
      (let ih = lookup-insert_by_path path e ds in
        let apart = path_less-ne d.0 e.0 less in
        ground (arith, less, ih, apart, eq_iff d.0 e.0, eq_iff d.0 path, eq_iff e.0 path))
  | inr less ↦ rw less refl
]

lookup-sort_by_path : (path : String) (ds : Dict ℤ) → lookup path (sort_by_path ds) ≡ lookup path ds
unfolding lookup sort_by_path
lookup-sort_by_path path [] = refl
lookup-sort_by_path path (d ∷ ds) =
    lookup-insert_by_path path d (sort_by_path ds) ∙ ground (arith, lookup-sort_by_path path ds)

-- One step: the number of the path is lowered at the path's own rules.
lookup-lower_found :
    (path : String) (stat : TargetStatus) (counts : Dict ℤ) (n : ℕ) (found : Option ℤ)
    → IsSmall stat
    → n < two_63
    → lookup path counts ≡ some (pos n)
    → lookup stat.rule counts ≡ found
    → lookup path (lower_found found stat counts)
      ≡ some (pos (if str_eq stat.rule path then n - stat.request_count else n))
unfolding lower_found
lookup-lower_found path stat counts n none small few e f =
    elim (Bool-cases (str_eq stat.rule path)) [
      | inl eq ↦
          absurd
            (none-ne-some (sym f ∙ ap (λ r. lookup r counts) ((eq_iff stat.rule path).0 eq) ∙ e))
      | inr ne ↦ rw ne e
    ]
lookup-lower_found path stat counts n (some count) small few e f =
    elim (Bool-cases (str_eq stat.rule path)) [
      | inl eq ↦
          (let same : count ≡ pos n =
              some-injective
                (sym f ∙ ap (λ r. lookup r counts) ((eq_iff stat.rule path).0 eq) ∙ e) in
            lookup-insert stat.rule path (lowered count stat) counts
            ∙ rw (eq, same) (ap some (lowered-pos n stat few small)))
      | inr ne ↦ lookup-insert stat.rule path (lowered count stat) counts ∙ rw ne e
    ]

lookup-lower_all :
    (path : String) (stats : List TargetStatus) (counts : Dict ℤ) (n : ℕ)
    → All IsSmall stats
    → n < two_63
    → lookup path counts ≡ some (pos n)
    → lookup path (lower_all stats counts) ≡ some (pos (n - forwarded path stats))
unfolding lower_all
lookup-lower_all path [] counts n small few e = e ∙ ap (λ k. some (pos k)) (omega arith)
lookup-lower_all path (stat ∷ stats) counts n small few e =
    let n' = (if str_eq stat.rule path then n - stat.request_count else n) in
    let step = lookup-lower_found path stat counts n (lookup stat.rule counts) small.0 few e refl in
    let rest =
      lookup-lower_all path stats (lower_found (lookup stat.rule counts) stat counts) n' small.1
        (ground (arith, few)) step in
    rest ∙ ap (λ k. some (pos k)) (ground arith)

lookup-path_stats :
    (counts : List PathCount) (stats : List TargetStatus) (path : String) (n : ℕ)
    → All IsSmall stats
    → n < two_63
    → lookup path (count_map counts []) ≡ some (pos n)
    → lookup path (path_stats (some counts) stats) ≡ some (pos (n - forwarded path stats))
unfolding path_stats
lookup-path_stats counts stats path n small few e =
    lookup-sort_by_path path (lower_all stats (count_map counts []))
    ∙ lookup-lower_all path stats (count_map counts []) n small few e

-- The map of the counts has a path that was asked for.
count_map-kept :
    (g : String → ℤ) (path : String) (paths : List String) (counts : Dict ℤ)
    → lookup path counts ≡ some (g path)
    → lookup path (count_map (map (λ p. record { path = p; count = g p }) paths) counts)
      ≡ some (g path)
unfolding count_map
count_map-kept g path [] counts e = e
count_map-kept g path (p ∷ paths) counts e = count_map-kept g path paths (insert p (g p) counts) (
    lookup-insert p path (g p) counts ∙ elim (Bool-cases (str_eq p path)) [
      | inl eq ↦ rw eq (ap (λ q. some (g q)) ((eq_iff p path).0 eq))
      | inr ne ↦ rw ne e
    ])

count_map-routed :
    (g : String → ℤ) (path : String) (path_rules : RoutingRules) (rules : Dict RoutingRules)
    (counts : Dict ℤ)
    → lookup path rules ≡ some path_rules
    → lookup path (
        count_map
          (map (λ p. record { path = p; count = g p }) (map (λ entry. entry.0) rules))
          counts)
      ≡ some (g path)
unfolding count_map lookup
count_map-routed g path path_rules [] counts e = absurd (none-ne-some e)
count_map-routed g path path_rules (entry ∷ rules) counts e =
    elim (Bool-cases (str_eq entry.0 path)) [
      | inl eq ↦
          count_map-kept g path (map (λ entry. entry.0) rules) (insert entry.0 (g entry.0) counts) (
            lookup-insert entry.0 path (g entry.0) counts
            ∙ rw eq (ap (λ q. some (g q)) ((eq_iff entry.0 path).0 eq)))
      | inr ne ↦
          count_map-routed g path path_rules rules (insert entry.0 (g entry.0) counts) (rw ne at e)
    ]

-- The requests that the cache has answered: after `n` requests for a routed path were counted, the status page gives
-- the path the number of its requests less those that its targets have counted, or 0 if these are
-- more. Both are below 2^63, and Redis is at hand.
pub get_cached_path_stats-increments :
    {S : Type 0} (parse_int : String → Option ℤ) (client : Commands S)
    (law : IsRedis parse_int client) (rules : Dict RoutingRules) (path_rules : RoutingRules)
    (stats : List TargetStatus) (path : String) (ttl n : ℕ) (s : S)
    → lookup path rules ≡ some path_rules
    → All IsSmall stats
    → law.number s (req_count_key path) + n < two_63
    → (page : Dict ℤ) × (get_cached_path_stats parse_int
          (some client)
          rules
          stats
          (increments client path ttl n s)
        ≡ returns page)
      × (lookup path page
          ≡ some (pos (law.number s (req_count_key path) + n - forwarded path stats)))
unfolding get_cached_path_stats
get_cached_path_stats-increments parse_int client law rules path_rules stats path ttl n s routed
      small few =
    let key : String → String = req_count_key in
    let g : String → ℤ = λ p.
      pos (if str_eq (key path) (key p) then law.number s (key p) + n else law.number s (key p)) in
    let paths = map (λ (entry : String × RoutingRules). entry.0) rules in
    let counts = map (λ p. record { path = p; count = g p }) paths in
    let read = batch_get_path_req_count-increments parse_int client law path ttl n s paths in
    let own : g path ≡ pos (law.number s (key path) + n) =
      (let self : str_eq (key path) (key path) ≡ true = eq_refl (key path) in rw self refl) in
    (
      path_stats (some counts) stats,
      rw read refl,
      lookup-path_stats counts stats path (law.number s (key path) + n) small few
          (count_map-routed g path path_rules rules [] routed ∙ ap some own),
    )
