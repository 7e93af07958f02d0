-- ===== src/Router/Node.antt =====
-- The nodes of both tries (trie.go, trie_regexp.go): children by rune, rules, and whether a route ends
-- here. A path is walked rune by rune; a text is Unicode, so no rune stands for broken UTF-8.
use mini_gateway.Common.{
  ℕ, ◌≡◌, refl, Bool, true, false, List, [], ◌∷◌, Option, none, some, ◌==◌, ==_iff, arith,
  if◌then◌else◌, Bool-cases, inl, inr, ◌↔◌,
}
use mini_gateway.Config.{RoutingRules}

mutual
  pub data TrieNode : Type 0 where
    node : Children → RoutingRules → Bool → TrieNode

  pub data Children : Type 0 where
    leaf : Children
    branch : ℕ → TrieNode → Children → Children

abbrev pub new_node : TrieNode
new_node = node leaf [] false

unfoldable pub child : ℕ → Children → Option TrieNode
child ch leaf = none
child ch (branch c t rest) = if c == ch then some t else child ch rest

unfoldable pub set_child : ℕ → TrieNode → Children → Children
set_child ch new leaf = branch ch new leaf
set_child ch new (branch c t rest) =
    if c == ch then branch ch new rest else branch c t (set_child ch new rest)

pub child-set_child :
    (ch other : ℕ) (new : TrieNode) (cs : Children)
    → child other (set_child ch new cs) ≡ (if ch == other then some new else child other cs)
unfolding child set_child
child-set_child ch other new leaf = refl
child-set_child ch other new (branch c t rest) =
    let ih = child-set_child ch other new rest in ground (arith, ih)

-- The child for a rune, made when it is missing.
abbrev pub or_new : Option TrieNode → TrieNode
or_new none = new_node
or_new (some t) = t

-- The loop of both `Insert` functions over the runes that are left, and the writes after it.
unfoldable pub insert_runes : List ℕ → RoutingRules → TrieNode → TrieNode
unfolding child set_child
insert_runes [] rules (node cs r e) = node cs rules true
insert_runes (ch ∷ chs) rules (node cs r e) =
    node (set_child ch (insert_runes chs rules (or_new (child ch cs))) cs) r e

abbrev pub answer : TrieNode → Option RoutingRules
answer (node cs r e) = if e then some r else none

-- One round of a search: what it does at a missing child, and at the child.
abbrev pub and_then {ℓ} : {A : Type ℓ} → Option TrieNode → A → (TrieNode → A) → A
and_then none missing found = missing
and_then (some t) missing found = found t

-- The loop of `Trie.Search`, which gives up at a missing child.
unfoldable pub search_runes : List ℕ → TrieNode → Option RoutingRules
unfolding child
search_runes [] t = answer t
search_runes (ch ∷ chs) (node cs r e) = and_then (child ch cs) none λ t. search_runes chs t

-- The loop of `TrieRegexp.Search`, which stops at a missing child.
unfoldable pub walk_runes : List ℕ → TrieNode → TrieNode
unfolding child
walk_runes [] t = t
walk_runes (ch ∷ chs) (node cs r e) = and_then (child ch cs) (node cs r e) λ t. walk_runes chs t

unfoldable pub same_runes : List ℕ → List ℕ → Bool
same_runes [] [] = true
same_runes (x ∷ xs) (y ∷ ys) = if x == y then same_runes xs ys else false
same_runes _ _ = false

pub same_runes_iff : (xs ys : List ℕ) → (same_runes xs ys ≡ true) ↔ (xs ≡ ys)
unfolding same_runes
same_runes_iff [] [] = ground arith
same_runes_iff [] (y ∷ ys) = ground arith
same_runes_iff (x ∷ xs) [] = ground arith
same_runes_iff (x ∷ xs) (y ∷ ys) = ground (arith, same_runes_iff xs ys)

pub search_runes-new_node : (key : List ℕ) → search_runes key new_node ≡ none
unfolding search_runes child
search_runes-new_node [] = refl
search_runes-new_node (ch ∷ chs) = refl

search_runes-or_new :
    (key : List ℕ) (o : Option TrieNode)
    → search_runes key (or_new o) ≡ and_then o none λ t. search_runes key t
search_runes-or_new key none = search_runes-new_node key
search_runes-or_new key (some t) = refl

-- A route that is inserted is found under its own runes, and no other answer changes.
pub search_runes-insert_runes :
    (key other : List ℕ) (rules : RoutingRules) (t : TrieNode)
    → search_runes other (insert_runes key rules t)
      ≡ (if same_runes key other then some rules else search_runes other t)
unfolding search_runes insert_runes same_runes
search_runes-insert_runes [] [] rules (node cs r e) = refl
search_runes-insert_runes [] (o ∷ os) rules (node cs r e) = refl
search_runes-insert_runes (ch ∷ chs) [] rules (node cs r e) = refl
search_runes-insert_runes (ch ∷ chs) (o ∷ os) rules (node cs r e) =
    let found = child-set_child ch o (insert_runes chs rules (or_new (child ch cs))) cs in
    let ih = search_runes-insert_runes chs os rules (or_new (child ch cs)) in
    elim (Bool-cases (ch == o)) [
      | inr ne ↦ rw (ne, search_runes, insert_runes, found, ne) refl
      | inl eq ↦
          let same : ch ≡ o = (==_iff ch o).0 eq in
          rw
            (
              eq,
              search_runes,
              insert_runes,
              found,
              eq,
              ih,
              search_runes-or_new os (child ch cs),
              same,
            )
            refl
    ]
