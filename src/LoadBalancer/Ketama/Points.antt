-- ===== src/LoadBalancer/Ketama/Points.antt =====
-- How many points a ring has.
use native.Mathlib.Nat.{suc-mul}
use mini_gateway.Common.{
  ℕ, zero, suc, ◌+◌, ◌*◌, ◌<◌, ◌≡◌, refl, ap, ◌∙◌, String, false, List, [], ◌∷◌, ◌++◌, length,
  length-append, arith, leb, codes, ◌==◌, Bool-cases, inl, inr,
}
use mini_gateway.LoadBalancer.Ketama.{
  Ketama, insert_sorted, sort_ring, itoa, add_replicas, add_nodes, build_ring, pick_node,
}

length-insert_sorted : (x : ℕ) (xs : List ℕ) → length (insert_sorted x xs) ≡ suc (length xs)
unfolding insert_sorted
length-insert_sorted x [] = refl
length-insert_sorted x (y ∷ ys) = elim (Bool-cases (leb x y)) [
  | inl le ↦ rw le refl
  | inr gt ↦ rw gt (ap suc (length-insert_sorted x ys))
]

length-sort_ring : (xs : List ℕ) → length (sort_ring xs) ≡ length xs
unfolding sort_ring
length-sort_ring [] = refl
length-sort_ring (x ∷ xs) = length-insert_sorted x (sort_ring xs) ∙ ap suc (length-sort_ring xs)

module _ (hash : List ℕ → ℕ) where
  add_replicas-points :
      (left j : ℕ) (node : String) (k : Ketama)
      → (length (add_replicas hash left j node k).hash_ring ≡ length k.hash_ring + left)
        × ((add_replicas hash left j node k).replicas ≡ k.replicas)
  unfolding add_replicas
  add_replicas-points zero j node k = (omega arith, refl)
  add_replicas-points (suc left) j node k =
      let point = hash (codes node ++ b'-' ∷ itoa j) in
      let (long, same) = add_replicas-points left (j + 1) node (record k {
        hash_ring = k.hash_ring ++ point ∷ [];
        hash_map = (point, node) ∷ k.hash_map;
      }) in
      (omega (arith, long, length-append k.hash_ring (point ∷ [])), same)

  add_nodes-points :
      (ts : List String) (k : Ketama)
      → length (add_nodes hash ts k).hash_ring ≡ length k.hash_ring + length ts * k.replicas
  unfolding add_nodes
  add_nodes-points [] k = omega arith
  add_nodes-points (t ∷ ts) k =
      let (long, same) = add_replicas-points k.replicas 0 t k in
      let rest = add_nodes-points ts (add_replicas hash k.replicas 0 t k) in
      rest
      ∙ ap (λ r. length (add_replicas hash k.replicas 0 t k).hash_ring + length ts * r) same
      ∙ omega (arith, long, suc-mul (length ts) k.replicas)

  pub build_ring-points :
      (k : Ketama) (targets : List String)
      → length (build_ring hash k targets).hash_ring ≡ length targets * k.replicas
  unfolding build_ring
  build_ring-points k targets =
      let empty : Ketama = record k { nodes = targets; hash_ring = []; hash_map = [] } in
      length-sort_ring (add_nodes hash targets empty).hash_ring
      ∙ add_nodes-points targets empty
      ∙ omega arith

  -- A ring with a point answers without regard to the targets.
  pub pick_node-any :
      (k : Ketama) (targets others : List String) (addr : String)
      → 0 < length k.hash_ring
      → pick_node hash k targets addr ≡ pick_node hash k others addr
  unfolding pick_node
  pick_node-any k targets others addr full =
      let some_point : (length k.hash_ring == 0) ≡ false = ground arith in rw some_point refl
