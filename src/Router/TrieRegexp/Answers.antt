-- ===== src/Router/TrieRegexp/Answers.antt =====
-- What a route that is inserted answers.
use mini_gateway.Common.{
  ℕ, ◌≡◌, refl, Bool, true, false, String, List, [], ◌∷◌, ◌++◌, Option, none, some, arith, codes,
  if◌then◌else◌, ==_iff, Bool-cases, Option-cases, inl, inr,
}
use mini_gateway.Config.{RoutingRules}
use mini_gateway.Router.Node.{
  TrieNode, Children, node, leaf, new_node, or_new, child, child-set_child, set_child, answer,
  insert_runes, walk_runes, search_runes,
}
use mini_gateway.Router.Trie.{trim_prefix}
use mini_gateway.Router.TrieRegexp.{
  RegexRule, TrieRegexp, new_trie_regexp, is_regex_pattern, anchored, add_regex, insert,
  first_match, or_else, search_path,
}

child_self : (ch : ℕ) (new : TrieNode) (cs : Children) → child ch (set_child ch new cs) ≡ some new
child_self ch new cs = ground (arith, child-set_child ch ch new cs, ==_iff ch ch)

walk_runes-insert_runes :
    (key : List ℕ) (rules : RoutingRules) (t : TrieNode)
    → answer (walk_runes key (insert_runes key rules t)) ≡ some rules
unfolding walk_runes insert_runes
walk_runes-insert_runes [] rules (node cs r e) = refl
walk_runes-insert_runes (ch ∷ chs) rules (node cs r e) =
    let new = insert_runes chs rules (or_new (child ch cs)) in
    rw (walk_runes, insert_runes, child_self ch new cs)
      (walk_runes-insert_runes chs rules (or_new (child ch cs)))

-- The walk of a longer path ends at the route.
walk_runes-longer :
    (key more : List ℕ) (rules : RoutingRules)
    → answer (walk_runes (key ++ more) (insert_runes key rules new_node)) ≡ some rules
unfolding walk_runes insert_runes child set_child
walk_runes-longer [] [] rules = refl
walk_runes-longer [] (m ∷ more) rules = refl
walk_runes-longer (ch ∷ chs) more rules =
    let new = insert_runes chs rules new_node in
    rw (walk_runes, insert_runes, child_self ch new leaf) (walk_runes-longer chs more rules)

walk_runes-search_runes :
    (key : List ℕ) (t : TrieNode) (rules : RoutingRules)
    → search_runes key t ≡ some rules
    → answer (walk_runes key t) ≡ some rules
unfolding walk_runes search_runes
walk_runes-search_runes [] t rules h = h
walk_runes-search_runes (ch ∷ chs) (node cs r e) rules h = elim (Option-cases (child ch cs)) [
  | inl missing ↦ let none_found = rw (search_runes, missing) at h in cc
  | inr (t, found) ↦
      let below : search_runes chs t ≡ some rules = rw (search_runes, found) at h in
      rw (walk_runes, found) (walk_runes-search_runes chs t rules below)
]

or_else_assoc : (a b c : Option RoutingRules) → or_else a (or_else b c) ≡ or_else (or_else a b) c
or_else_assoc none b c = refl
or_else_assoc (some a) b c = refl

or_else-none : (a : Option RoutingRules) → a ≡ or_else a none
or_else-none none = refl
or_else-none (some a) = refl

first_match-append :
    {R : Type 0} (matches : R → String → Bool) (re : R) (path : String) (rules : RoutingRules)
    (other : String) (rs : List (RegexRule R))
    → first_match matches other (rs ++ record { regex = re; pattern = path; rules = rules } ∷ [])
      ≡ or_else (first_match matches other rs) (if matches re other then some rules else none)
unfolding first_match
first_match-append matches re path rules other [] = refl
first_match-append matches re path rules other (r ∷ rs) =
    elim (Bool-cases (matches r.regex other)) [
      | inl hit ↦ rw hit refl
      | inr miss ↦ rw miss (first_match-append matches re path rules other rs)
    ]

module _ {R : Type 0} (compile : String → Option R) (matches : R → String → Bool) where
  -- A static route is answered for its own path, whatever else the engine holds.
  pub search_path-insert_static :
      (path : String) (rules : RoutingRules) (t : TrieRegexp R)
      → is_regex_pattern path ≡ false
      → search_path matches path (insert compile path rules t) ≡ some rules
  unfolding search_path insert
  search_path-insert_static path rules t static =
      rw (static, walk_runes-insert_runes (trim_prefix (codes path)) rules t.root) refl

  -- What a pattern that was compiled, or was not, answers.
  abbrev pub matched : Option R → String → RoutingRules → Option RoutingRules
  matched none other rules = none
  matched (some re) other rules = if matches re other then some rules else none

  -- After a path with a special character was inserted, a request has the answer that it had, and for
  -- want of one the new rules if the anchored path compiles and matches the request's path.
  pub search_path-insert_regex :
      (path other : String) (rules : RoutingRules) (t : TrieRegexp R)
      → is_regex_pattern path ≡ true
      → search_path matches other (insert compile path rules t)
        ≡ or_else (search_path matches other t) (matched (compile (anchored path)) other rules)
  unfolding search_path insert add_regex
  search_path-insert_regex path other rules t regex =
      elim (Option-cases (compile (anchored path))) [
        | inl broken ↦ rw (regex, broken) (or_else-none (search_path matches other t))
        | inr (re, compiled) ↦
            rw (regex, compiled, first_match-append matches re path rules other t.regex_rules)
              (or_else_assoc (answer (walk_runes (trim_prefix (codes other)) t.root))
                (first_match matches other t.regex_rules)
                (if matches re other then some rules else none))
      ]

  -- With one static route, every path that begins with the route's is answered by it.
  pub search_path-longer :
      (path longer : String) (more : List ℕ) (rules : RoutingRules)
      → is_regex_pattern path ≡ false
      → trim_prefix (codes longer) ≡ trim_prefix (codes path) ++ more
      → search_path matches longer (insert compile path rules new_trie_regexp) ≡ some rules
  unfolding search_path insert new_trie_regexp
  search_path-longer path longer more rules static e =
      rw (static, e, walk_runes-longer (trim_prefix (codes path)) more rules) refl
