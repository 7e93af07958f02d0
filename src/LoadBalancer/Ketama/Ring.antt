-- ===== src/LoadBalancer/Ketama/Ring.antt =====
-- What `buildRing` builds: a sorted ring each of whose points belongs to one of the targets.
use mini_gateway.Common.{
  ℕ, zero, suc, ◌+◌, ◌≤◌, ◌≡◌, refl, ◌∙◌, All-Elem, ◌⊎◌, inl, inr, String, List, [], ◌∷◌, ◌++◌,
  arith, All, Elem, leb, codes, Bool-cases, All-map,
}
use mini_gateway.LoadBalancer.Ketama.{
  Ketama, node_at, insert_sorted, sort_ring, itoa, add_replicas, add_nodes, build_ring,
}
use mini_gateway.LoadBalancer.Ketama.Search.{IsSorted}

module _ {κ} (P : ℕ → Type κ) where
  All-insert_sorted : (x : ℕ) (xs : List ℕ) → P x → All P xs → All P (insert_sorted x xs)
  unfolding insert_sorted
  All-insert_sorted x [] p h = (p, tt)
  All-insert_sorted x (y ∷ ys) p h = elim (Bool-cases (leb x y)) [
    | inl le ↦ rw le (p, h)
    | inr gt ↦ rw gt (h.0, All-insert_sorted x ys p h.1)
  ]

  All-sort_ring : (xs : List ℕ) → All P xs → All P (sort_ring xs)
  unfolding sort_ring
  All-sort_ring [] h = tt
  All-sort_ring (x ∷ xs) h = All-insert_sorted x (sort_ring xs) h.0 (All-sort_ring xs h.1)

  All-snoc : (xs : List ℕ) (x : ℕ) → All P xs → P x → All P (xs ++ x ∷ [])
  All-snoc [] x h p = (p, tt)
  All-snoc (y ∷ ys) x h p = (h.0, All-snoc ys x h.1 p)

insert_sorted-IsSorted : (x : ℕ) (xs : List ℕ) → IsSorted xs → IsSorted (insert_sorted x xs)
unfolding insert_sorted
insert_sorted-IsSorted x [] s = (tt, tt)
insert_sorted-IsSorted x (y ∷ ys) s = elim (Bool-cases (leb x y)) [
  | inl le ↦ rw le ((ground arith, All-map (λ z (h : y ≤ z). ground arith) ys s.0), s)
  | inr gt ↦
      rw gt
        (All-insert_sorted (λ z. y ≤ z) x ys (ground arith) s.0, insert_sorted-IsSorted x ys s.1)
]

sort_ring-IsSorted : (xs : List ℕ) → IsSorted (sort_ring xs)
unfolding sort_ring
sort_ring-IsSorted [] = tt
sort_ring-IsSorted (x ∷ xs) = insert_sorted-IsSorted x (sort_ring xs) (sort_ring-IsSorted xs)

-- Every point of the ring belongs to one of the nodes.
abbrev pub Owned : List String → Ketama → Type 0
Owned nodes k = All (λ p. Elem (node_at p k.hash_map) nodes) k.hash_ring

node_at-Elem :
    (nodes : List String) (point : ℕ) (node : String) (m : List (ℕ × String)) (p : ℕ)
    → Elem node nodes
    → (p ≡ point) ⊎ Elem (node_at p m) nodes
    → Elem (node_at p ((point, node) ∷ m)) nodes
unfolding node_at
node_at-Elem nodes point node m p e h = ground arith

-- The invariant of a ring that was built for some targets.
pub record IsRing (k : Ketama) : Type 0 where
  pub sorted : IsSorted k.hash_ring
  pub owned : Owned k.nodes k

module _ (hash : List ℕ → ℕ) where
  add_replicas-Owned :
      (nodes : List String) (left j : ℕ) (node : String) (k : Ketama)
      → Elem node nodes
      → Owned nodes k
      → Owned nodes (add_replicas hash left j node k)
        × ((add_replicas hash left j node k).nodes ≡ k.nodes)
  unfolding add_replicas
  add_replicas-Owned nodes zero j node k e h = (h, refl)
  add_replicas-Owned nodes (suc left) j node k e h =
      let point = hash (codes node ++ b'-' ∷ itoa j) in
      let kept =
        All-map (λ p q. node_at-Elem nodes point node k.hash_map p e (inr q)) k.hash_ring h in
      add_replicas-Owned nodes left (j + 1) node
        (record k { hash_ring = k.hash_ring ++ point ∷ []; hash_map = (point, node) ∷ k.hash_map })
        e
        (All-snoc (λ p. Elem (node_at p ((point, node) ∷ k.hash_map)) nodes) k.hash_ring point kept
          (node_at-Elem nodes point node k.hash_map point e (inl refl)))

  add_nodes-Owned :
      (nodes ts : List String) (k : Ketama)
      → All (λ t. Elem t nodes) ts
      → Owned nodes k
      → Owned nodes (add_nodes hash ts k) × ((add_nodes hash ts k).nodes ≡ k.nodes)
  unfolding add_nodes
  add_nodes-Owned nodes [] k e h = (h, refl)
  add_nodes-Owned nodes (t ∷ ts) k e h =
      let (first, same) = add_replicas-Owned nodes k.replicas 0 t k e.0 h in
      let (rest, same') = add_nodes-Owned nodes ts (add_replicas hash k.replicas 0 t k) e.1 first in
      (rest, same' ∙ same)

  -- The ring built for the targets is sorted, and each of its points belongs to a target.
  pub build_ring-IsRing :
      (k : Ketama) (targets : List String)
      → IsRing (build_ring hash k targets) × ((build_ring hash k targets).nodes ≡ targets)
  unfolding build_ring
  build_ring-IsRing k targets =
      let empty : Ketama = record k { nodes = targets; hash_ring = []; hash_map = [] } in
      let filled = add_nodes hash targets empty in
      let (owned, same) = add_nodes-Owned targets targets empty (All-Elem targets) tt in
      (
        record {
          sorted = sort_ring-IsSorted filled.hash_ring;
          owned = rw same (
              All-sort_ring (λ p. Elem (node_at p filled.hash_map) targets) filled.hash_ring owned);
        },
        same,
      )
