-- ===== src/LoadBalancer/Ketama/Offered.antt =====
-- `SelectTarget` of the Ketama balancer: it serves one of the targets that it is offered, and serves
-- a client the same one as long as the targets stay the same.
use mini_gateway.Common.{
  ℕ, ◌<◌, ◌≡◌, refl, ap, subst, String, true, List, [], ◌∷◌, arith, Elem, Elem-get_elem?,
  All-get_elem?, get_elem?-some, returns, length, Bool-cases, ◌==◌, ==_iff, eq_iff, eq_refl, codes,
  inl, inr,
}
use mini_gateway.LoadBalancer.Ketama.{
  Ketama, node_at, find_nearest, equal_slice, needs_rebuild, refresh, pick_node, select_target,
}
use mini_gateway.LoadBalancer.Ketama.Search.{find_nearest_lem}
use mini_gateway.LoadBalancer.Ketama.Ring.{IsRing, build_ring-IsRing}

equal_slice_sound : (xs ys : List String) → equal_slice xs ys ≡ true → xs ≡ ys
unfolding equal_slice
equal_slice_sound [] [] e = refl
equal_slice_sound (x ∷ xs) (y ∷ ys) e = ground (arith, eq_iff x y, equal_slice_sound xs ys)
equal_slice_sound xs ys e = cc

equal_slice_self : (xs : List String) → equal_slice xs xs ≡ true
unfolding equal_slice
equal_slice_self [] = refl
equal_slice_self (x ∷ xs) = rw (eq_refl x, equal_slice_self xs)

pub needs_rebuild-empty : (xs : List String) → 0 < length xs → needs_rebuild [] xs ≡ true
unfolding needs_rebuild
needs_rebuild-empty xs h = ground arith

module _ (hash : List ℕ → ℕ) where
  refresh-IsRing :
      (k : Ketama) (targets : List String)
      → IsRing k
      → IsRing (refresh hash k targets) × ((refresh hash k targets).nodes ≡ targets)
  unfolding refresh needs_rebuild
  refresh-IsRing k targets v = elim (Bool-cases (length k.nodes == length targets)) [
    | inr other ↦ rw other (build_ring-IsRing hash k targets)
    | inl same ↦ elim (Bool-cases (equal_slice k.nodes targets)) [
      | inr other ↦ rw (same, other) (build_ring-IsRing hash k targets)
      | inl equal ↦ rw (same, equal) (v, equal_slice_sound k.nodes targets equal)
    ]
  ]

  -- The targets of the ring are not rebuilt.
  pub refresh-same :
      (k : Ketama) (targets : List String) → k.nodes ≡ targets → refresh hash k targets ≡ k
  unfolding refresh needs_rebuild
  refresh-same k targets e =
      let long = (==_iff (length k.nodes) (length targets)).1 (ap length e) in
      let equal = subst (λ ts. equal_slice k.nodes ts ≡ true) e (equal_slice_self k.nodes) in
      rw (long, equal)

  pub select_target-some :
      (k : Ketama) (targets : List String) (addr : String)
      → 0 < length targets
      → select_target hash k targets addr
        ≡ (pick_node hash (refresh hash k targets) targets addr, refresh hash k targets)
  unfolding select_target
  select_target-some k [] addr h = absurd (omega arith)
  select_target-some k (x ∷ xs) addr h = ground arith

  pub pick_node-Elem :
      (k : Ketama) (targets : List String) (addr : String)
      → IsRing k
      → k.nodes ≡ targets
      → 0 < length targets
      → (t : String) × (pick_node hash k targets addr ≡ returns t) × Elem t targets
  unfolding pick_node
  pick_node-Elem k targets addr v same h = elim (Bool-cases (length k.hash_ring == 0)) [
    | inl empty ↦
        let (t, e) = get_elem?-some targets 0 h in (t, rw (empty, e), Elem-get_elem? targets 0 t e)
    | inr full ↦
        let inside = find_nearest_lem (hash (codes addr)) k.hash_ring v.sorted (ground arith) in
        let (p, e) =
          get_elem?-some k.hash_ring (find_nearest (hash (codes addr)) k.hash_ring) inside.0 in
        (
          node_at p k.hash_map,
          rw (full, e),
          rw same at (
              All-get_elem? (λ q. Elem (node_at q k.hash_map) k.nodes) k.hash_ring
                (find_nearest (hash (codes addr)) k.hash_ring) p v.owned e),
        )
  ]

  -- Whatever ring the balancer has built, for targets that are not none: it serves one of them and
  -- keeps a ring built for them, and the next request of that client over these targets is served the
  -- same and changes nothing.
  pub select_target-stable :
      (k : Ketama) (targets : List String) (addr : String)
      → IsRing k
      → 0 < length targets
      → (t : String) × ((select_target hash k targets addr).0 ≡ returns t)
        × Elem t targets
        × IsRing (select_target hash k targets addr).1
        × (select_target hash (select_target hash k targets addr).1 targets addr
            ≡ (returns t, (select_target hash k targets addr).1))
  select_target-stable k targets addr v h =
      let (v', same) = refresh-IsRing k targets v in
      let (t, e, offered) = pick_node-Elem (refresh hash k targets) targets addr v' same h in
      let kept = refresh-same (refresh hash k targets) targets same in
      let call = select_target-some k targets addr h in
      let again = select_target-some (refresh hash k targets) targets addr h in
      (t, rw (call, e), offered, rw call v', rw (call, again, kept, e))
