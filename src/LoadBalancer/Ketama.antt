-- ===== src/LoadBalancer/Ketama.antt =====
-- internal/core/loadbalancer/ketame.go: consistent hashing. The 32-bit hash of a key (the first four
-- bytes of an MD5 sum) is a parameter: nothing below depends on which function it is. A key is its
-- list of code points. The double-checked rebuild is one step; logging and tracing are left out.

pub mod Search
pub mod Ring
pub mod Offered
pub mod Points
mod Tests
use mini_gateway.Common.{
  ℕ, zero, suc, ◌+◌, ◌*◌, ◌/◌, ◌%◌, String, Bool, true, false, not, ◌&&◌, ◌||◌, List, [], ◌∷◌, ◌++◌,
  Option, none, some, Outcome, returns, ◌>>=◌, or_panic, length, get_elem?, get_or, ltb, leb, ◌==◌,
  if◌then◌else◌, str_eq, codes,
}
use mini_gateway.LoadBalancer.{LoadBalancer, Request}

pub record Ketama : Type 0 where
  pub nodes : List String
  pub hash_ring : List ℕ
  pub hash_map : List (ℕ × String)
  pub replicas : ℕ

unfoldable pub new_ketama : ℕ → Ketama
new_ketama replicas = record { nodes = []; hash_ring = []; hash_map = []; replicas = replicas }

-- `strconv.Itoa` at a natural number; n + 1 digits are enough for n.
itoa_from : ℕ → ℕ → List ℕ → List ℕ
itoa_from zero n digits = digits
itoa_from (suc fuel) n digits =
    let digits' = (b'0' + n % 10) ∷ digits in
    let rest = itoa_from fuel (n / 10) digits' in if n / 10 == 0 then digits' else rest

itoa : ℕ → List ℕ
unfolding itoa_from
itoa n = itoa_from (suc n) n []

-- `hashMap`, the latest write first. A missing key reads as the empty text.
unfoldable pub node_at : ℕ → List (ℕ × String) → String
node_at hash [] = ""
node_at hash ((h, node) ∷ rest) = if h == hash then node else node_at hash rest

-- `sort.Slice` by `<`: on numbers every sorting algorithm gives the same list.
insert_sorted : ℕ → List ℕ → List ℕ
insert_sorted x [] = x ∷ []
insert_sorted x (y ∷ ys) = if leb x y then x ∷ y ∷ ys else y ∷ insert_sorted x ys

sort_ring : List ℕ → List ℕ
unfolding insert_sorted
sort_ring [] = []
sort_ring (x ∷ xs) = insert_sorted x (sort_ring xs)

-- `sort.Search` between i and j, with the rounds that are left.
search : ℕ → ℕ → ℕ → ℕ → List ℕ → ℕ
search zero i j hash ring = i
search (suc fuel) i j hash ring =
    let mid = (i + j) / 2 in
    let right = search fuel (mid + 1) j hash ring in
    let left = search fuel i mid hash ring in
    if ltb i j then (if leb hash (get_or ring mid 0) then left else right) else i

unfoldable pub find_nearest : ℕ → List ℕ → ℕ
unfolding search
find_nearest hash ring =
    let index = search (length ring) 0 (length ring) hash ring in
    if index == length ring then 0 else index

unfoldable pub equal_slice : List String → List String → Bool
equal_slice [] [] = true
equal_slice (x ∷ xs) (y ∷ ys) = str_eq x y && equal_slice xs ys
equal_slice _ _ = false

-- Whether the ring that is kept was built for other targets.
unfoldable pub needs_rebuild : List String → List String → Bool
unfolding equal_slice
needs_rebuild nodes targets =
    not (length nodes == length targets) || not (equal_slice nodes targets)

module _ (hash : List ℕ → ℕ) where
  -- The loop over j from a given replica on, for one node.
  add_replicas : ℕ → ℕ → String → Ketama → Ketama
  unfolding itoa
  add_replicas zero j node k = k
  add_replicas (suc left) j node k =
      let point = hash (codes node ++ b'-' ∷ itoa j) in
      add_replicas left (j + 1) node
        (record k { hash_ring = k.hash_ring ++ point ∷ []; hash_map = (point, node) ∷ k.hash_map })

  add_nodes : List String → Ketama → Ketama
  unfolding add_replicas
  add_nodes [] k = k
  add_nodes (node ∷ nodes) k = add_nodes nodes (add_replicas k.replicas 0 node k)

  unfoldable pub build_ring : Ketama → List String → Ketama
  unfolding add_nodes sort_ring
  build_ring k targets =
      let filled =
        add_nodes targets (record k { nodes = targets; hash_ring = []; hash_map = [] }) in
      record filled { hash_ring = sort_ring filled.hash_ring }

  -- The ring for the targets: the present one, if it was built for them.
  unfoldable pub refresh : Ketama → List String → Ketama
  unfolding build_ring needs_rebuild
  refresh k targets = if needs_rebuild k.nodes targets then build_ring k targets else k

  unfoldable pub pick_node : Ketama → List String → String → Outcome String
  unfolding find_nearest node_at
  pick_node k targets addr =
      if length k.hash_ring == 0
      then or_panic (get_elem? targets 0)
      else or_panic (get_elem? k.hash_ring (find_nearest (hash (codes addr)) k.hash_ring))
        >>= λ point. returns (node_at point k.hash_map)

  unfoldable pub select_target : Ketama → List String → String → Outcome String × Ketama
  unfolding refresh pick_node
  select_target k targets addr =
      if length targets == 0
      then (returns "", k)
      else let k' = refresh k targets in (pick_node k' targets addr, k')

  abbrev pub ketama : LoadBalancer Ketama
  ketama = record {
    select_target = λ k targets r. select_target k targets r.remote_addr;
    type_name = "ketama";
  }
