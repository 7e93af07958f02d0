-- ===== src/LoadBalancer/Ketama/Tests.antt =====
-- The Ketama balancer at two targets, with the sum of a key's code points in place of its hash.
use mini_gateway.Common.{
  ℕ, ◌+◌, ◌<◌, ◌≤◌, ◌⊎◌, length, get_or, ◌≡◌, refl, String, List, [], ◌∷◌, arith, Elem, returns,
}
use mini_gateway.LoadBalancer.Ketama.{Ketama, new_ketama, search, find_nearest, select_target}
use mini_gateway.LoadBalancer.Ketama.Search.{IsSorted, find_nearest_lem}
use mini_gateway.LoadBalancer.Ketama.Ring.{IsRing}
use mini_gateway.LoadBalancer.Ketama.Offered.{select_target-stable}

abbrev sum_codes : List ℕ → ℕ
sum_codes [] = 0
sum_codes (c ∷ cs) = c + sum_codes cs

abbrev two_nodes : List String
two_nodes = "http://a" ∷ "http://b" ∷ []

abbrev fresh : Ketama
fresh = record { nodes = []; hash_ring = []; hash_map = []; replicas = 2 }

fresh_lem : new_ketama 2 ≡ fresh
unfolding new_ketama
fresh_lem = refl

select_target-stable_example :
    (t : String) × ((select_target sum_codes fresh two_nodes "10.0.0.1:80").0 ≡ returns t)
    × Elem t two_nodes
    × IsRing (select_target sum_codes fresh two_nodes "10.0.0.1:80").1
    × (select_target sum_codes
          (select_target sum_codes fresh two_nodes "10.0.0.1:80").1
          two_nodes
          "10.0.0.1:80"
        ≡ (returns t, (select_target sum_codes fresh two_nodes "10.0.0.1:80").1))
select_target-stable_example =
    select_target-stable sum_codes fresh two_nodes "10.0.0.1:80"
      (record { sorted = tt; owned = tt }) (omega arith)

-- Past the last point the search wraps to the first one.
abbrev ring : List ℕ
ring = 3 ∷ 5 ∷ 5 ∷ 9 ∷ []

ring-IsSorted : IsSorted ring
ring-IsSorted = (
  (omega arith, (omega arith, (omega arith, tt))),
  ((omega arith, (omega arith, tt)), ((omega arith, tt), (tt, tt))),
)

find_nearest_lem_example :
    let i = find_nearest 4 ring in
    (i < length ring)
    × ((((k : ℕ) → k < i → get_or ring k 0 < 4)
          × ((k : ℕ) → i ≤ k → k < length ring → 4 ≤ get_or ring k 0))
        ⊎ ((i ≡ 0) × ((k : ℕ) → k < length ring → get_or ring k 0 < 4)))
find_nearest_lem_example = find_nearest_lem 4 ring ring-IsSorted (omega arith)

finds_second : find_nearest 4 ring ≡ 1
unfolding find_nearest search
finds_second = refl

wraps : find_nearest 10 ring ≡ 0
unfolding find_nearest search
wraps = refl
