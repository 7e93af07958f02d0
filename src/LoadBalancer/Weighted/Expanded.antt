-- ===== src/LoadBalancer/Weighted/Expanded.antt =====
-- The weighted choice read off a plain list: each target repeated as often as its weight says.
use native.Mathlib.Nat.{mod-lt, add-zero}
use mini_gateway.Common.{
  ℕ, zero, suc, ◌+◌, ◌-◌, ◌%◌, ◌≤◌, ◌<◌, ◌≡◌, refl, ap, sym, ◌∙◌, String, List, [], ◌∷◌, ◌++◌, map,
  some, arith, inl, inr, or_panic, length, get_elem?, replicate, drop, get_elem?-append_left,
  get_elem?-append_right, get_elem?-replicate, length-replicate, length-append, get_elem?-drop_zero,
  drop-suc, Bool-cases, ltb,
}
use mini_gateway.Common.Int.{ℤ, pos, negsuc, two_63, add64, rem, add64-pos, add64-negsuc_zero}
use mini_gateway.LoadBalancer.Weighted.{WrrState, pick, select_weighted}

abbrev pub expanded : List String → List ℕ → List String
expanded [] ws = []
expanded (t ∷ ts) [] = []
expanded (t ∷ ts) (w ∷ ws) = replicate w t ++ expanded ts ws

abbrev pub sum : List ℕ → ℕ
sum [] = 0
sum (w ∷ ws) = w + sum ws

pub length-expanded :
    (ts : List String) (ws : List ℕ) → length ts ≡ length ws → length (expanded ts ws) ≡ sum ws
length-expanded [] [] h = refl
length-expanded [] (w ∷ ws) h = absurd (omega arith)
length-expanded (t ∷ ts) [] h = absurd (omega arith)
length-expanded (t ∷ ts) (w ∷ ws) h = omega (
  arith,
  length-append (replicate w t) (expanded ts ws),
  length-replicate w t,
  length-expanded ts ws (omega arith),
)

get_elem?-drop :
    (full : List String) (i : ℕ) (t : String) (ts : List String)
    → drop i full ≡ t ∷ ts
    → get_elem? full i ≡ some t
get_elem?-drop full i t ts e = get_elem?-drop_zero full i ∙ ap (λ xs. get_elem? xs 0) e

-- The position x, with c weights passed, falls on the entry x - c of the list that is left.
pick_at :
    (full : List String) (x c i : ℕ) (ts : List String) (ws : List ℕ)
    → drop i full ≡ ts
    → length ts ≡ length ws
    → c ≤ x
    → x < c + sum ws
    → c + sum ws < two_63
    → (j : ℕ) × (pick (pos x) (pos c) i (map pos ws) ≡ some j)
      × (get_elem? full j ≡ get_elem? (expanded ts ws) (x - c))
unfolding pick
pick_at full x c i [] [] at same below inside fits = absurd (omega arith)
pick_at full x c i [] (w ∷ ws) at same below inside fits = absurd (omega arith)
pick_at full x c i (t ∷ ts) [] at same below inside fits = absurd (omega arith)
pick_at full x c i (t ∷ ts) (w ∷ ws) at same below inside fits =
    let block = length-replicate w t in
    elim (Bool-cases (ltb x (c + w))) [
      | inl hit ↦ (
        i,
        rw (add64-pos c w (omega arith)) (ground arith),
        get_elem?-drop full i t ts at
            ∙ sym (
                get_elem?-append_left (replicate w t) (expanded ts ws) (x - c)
                  (ground (arith, block))
                ∙ get_elem?-replicate w (x - c) t (ground arith)),
      )
      | inr miss ↦
          let (j, found, same_entry) =
            pick_at full x (c + w) (suc i) ts ws (drop-suc full i t ts at) (omega arith)
              (ground arith) (omega arith) (omega arith) in
          let shift : x - (c + w) ≡ x - c - length (replicate w t) = omega (arith, block) in
          (
            j,
            rw (add64-pos c w (omega arith)) (ground (arith, found)),
            same_entry
                ∙ ap (get_elem? (expanded ts ws)) shift
                ∙ sym (
                    get_elem?-append_right (replicate w t) (expanded ts ws) (x - c)
                      (ground (arith, block))),
          )
    ]

-- The counter before the call that will find it at m: -1 at the start.
abbrev pub before : ℕ → ℤ
before zero = negsuc 0
before (suc m) = pos m

add64-before : (m : ℕ) → m < two_63 → add64 (before m) (pos 1) ≡ pos m
add64-before zero h = add64-negsuc_zero
add64-before (suc m) h = add64-pos m 1 (omega arith) ∙ ap pos (omega arith)

-- A state whose weights are the numbers ws, at least one of them positive, and that fit in an int.
pub record IsWeighted (state : WrrState) (ws : List ℕ) : Type 0 where
  pub weights : state.weights ≡ map pos ws
  pub total : state.total_weight ≡ pos (sum ws)
  pub same_length : length state.targets ≡ length ws
  pub positive : 0 < sum ws
  pub fits : sum ws < two_63

-- The call that moves the counter to m chooses entry m % total of the expanded list.
pub select_weighted-expanded :
    (state : WrrState) (ws : List ℕ) (m : ℕ)
    → IsWeighted state ws
    → state.current_count ≡ before m
    → m < two_63
    → select_weighted state ≡ (
      or_panic (get_elem? (expanded state.targets ws) (m % sum ws)),
      record state { current_count = pos m },
    )
unfolding select_weighted rem
select_weighted-expanded state ws m v at room =
    let inside : m % sum ws < sum ws = mod-lt m v.positive in
    let (j, found, same_entry) =
      pick_at state.targets (m % sum ws) 0 0 state.targets ws refl v.same_length (omega arith)
        (omega arith) (omega (arith, v.fits)) in
    let entry : get_elem? state.targets j ≡ get_elem? (expanded state.targets ws) (m % sum ws) =
      same_entry ∙ ap (get_elem? (expanded state.targets ws)) (omega arith) in
    rw (at, add64-before m room, v.weights, v.total, add-zero, found, entry)
