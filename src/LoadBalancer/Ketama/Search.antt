-- ===== src/LoadBalancer/Ketama/Search.antt =====
-- `find_nearest` on a sorted ring finds the first point at or after the key, and wraps to the first
-- point of the ring.
use mini_gateway.Common.{
  ℕ, zero, suc, ◌+◌, ◌-◌, ◌/◌, ◌≤◌, ◌<◌, ◌≡◌, refl, ◌⊎◌, inl, inr, Bool-cases, List, [], ◌∷◌, arith,
  length, get_or, All, All-get_or, leb, ltb, ◌==◌, ==_iff,
}
use mini_gateway.LoadBalancer.Ketama.{search, find_nearest}

abbrev pub IsSorted : List ℕ → Type 0
IsSorted [] = Unit
IsSorted (x ∷ xs) = All (λ y. x ≤ y) xs × IsSorted xs

get_or_mono :
    (ring : List ℕ) (a b : ℕ)
    → IsSorted ring
    → a ≤ b
    → b < length ring
    → get_or ring a 0 ≤ get_or ring b 0
get_or_mono [] a b s h lt = elim lt [ ]
get_or_mono (x ∷ xs) zero zero s h lt = omega arith
get_or_mono (x ∷ xs) zero (suc b) s h lt = All-get_or (λ y. x ≤ y) xs b 0 s.0 (omega arith)
get_or_mono (x ∷ xs) (suc a) zero s h lt = absurd (omega arith)
get_or_mono (x ∷ xs) (suc a) (suc b) s h lt = get_or_mono xs a b s.1 (omega arith) (omega arith)

module _ (hash : ℕ) (ring : List ℕ) (sorted : IsSorted ring) where
  abbrev AllBelow : ℕ → Type 0
  AllBelow i = (k : ℕ) → k < i → get_or ring k 0 < hash

  abbrev AllFrom : ℕ → Type 0
  AllFrom j = (k : ℕ) → j ≤ k → k < length ring → hash ≤ get_or ring k 0

  search_lem :
      (fuel i j : ℕ)
      → j - i ≤ fuel
      → i ≤ j
      → j ≤ length ring
      → AllBelow i
      → AllFrom j
      → (search fuel i j hash ring ≤ length ring)
        × AllBelow (search fuel i j hash ring)
        × AllFrom (search fuel i j hash ring)
  unfolding search
  search_lem zero i j enough order inside below from =
      (omega arith, below, λ k h lt. from k (omega arith) lt)
  search_lem (suc fuel) i j enough order inside below from = elim (Bool-cases (ltb i j)) [
    | inr stop ↦ rw stop (omega arith, below, λ k h lt. from k (ground arith) lt)
    | inl go ↦ elim (Bool-cases (leb hash (get_or ring ((i + j) / 2) 0))) [
      | inl left ↦
          rw (go, left)
            (search_lem fuel i ((i + j) / 2) (ground arith) (ground arith) (ground arith) below
              λ k h lt. ground (arith, get_or_mono ring ((i + j) / 2) k sorted h lt))
      | inr right ↦
          rw (go, right)
            (search_lem fuel ((i + j) / 2 + 1) j (ground arith) (ground arith) inside
              (λ k h. ground (arith, get_or_mono ring k ((i + j) / 2) sorted)) from)
    ]
  ]

  -- On a ring that is sorted and not empty, the index found is in range; the points before it are
  -- below the key and those from it on are not, unless all points are below the key and it is 0.
  pub find_nearest_lem :
      0 < length ring
      → let i = find_nearest hash ring in
        (i < length ring)
        × ((((k : ℕ) → k < i → get_or ring k 0 < hash)
              × ((k : ℕ) → i ≤ k → k < length ring → hash ≤ get_or ring k 0))
            ⊎ ((i ≡ 0) × ((k : ℕ) → k < length ring → get_or ring k 0 < hash)))
  unfolding find_nearest
  find_nearest_lem h =
      let (inside, below, from) =
        search_lem (length ring) 0 (length ring) (omega arith) (omega arith) (omega arith)
          (λ k p. absurd (omega arith)) (λ k p q. absurd (omega arith)) in
      elim (Bool-cases (search (length ring) 0 (length ring) hash ring == length ring)) [
        | inl past ↦
            let whole = (==_iff _ _).0 past in
            rw past (h, inr (refl, λ k lt. below k (omega (arith, whole))))
        | inr found ↦ rw found (ground arith, inl (below, from))
      ]
