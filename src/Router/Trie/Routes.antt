-- ===== src/Router/Trie/Routes.antt =====
-- The trie answers as a search of the list of routes does.
use mini_gateway.Common.{
  ℕ, suc, ◌<◌, ◌≡◌, refl, ap, sym, String, List, [], ◌∷◌, ◌++◌, Option, none, some, Dict, arith,
  Bool-cases, inl, inr, ◌==◌, length, codes, if◌then◌else◌,
}
use mini_gateway.Config.{RoutingRules, get_http_rules}
use mini_gateway.Router.{respond}
use mini_gateway.Router.Node.{
  TrieNode, new_node, same_runes, same_runes_iff, search_runes-insert_runes, search_runes-new_node,
}
use mini_gateway.Router.Trie.{trim_prefix, trim_suffix, insert, search_path, insert_all, setup}

-- The runes that a route is stored under, and those that a request is looked up under.
abbrev pub route_runes : String → List ℕ
route_runes path = trim_prefix (codes path)

abbrev pub request_runes : String → List ℕ
request_runes path = trim_suffix (trim_prefix (codes path))

-- The rules of the last route that is stored under some runes.
unfoldable pub route_at : List ℕ → Dict RoutingRules → Option RoutingRules → Option RoutingRules
unfolding trim_prefix same_runes
route_at runes [] before = before
route_at runes ((path, rules) ∷ rest) before =
    route_at runes rest (if same_runes (route_runes path) runes then some rules else before)

-- After one more route, a request has that route's rules if its path without the slashes around it is
-- the route's without the slash before it, and else the answer that it had.
pub search_path-insert :
    (path other : String) (rules : RoutingRules) (root : TrieNode)
    → search_path other (insert path rules root) ≡ (
        if same_runes (route_runes path) (request_runes other)
        then some rules
        else search_path other root)
unfolding search_path insert
search_path-insert path other rules root =
    search_runes-insert_runes (route_runes path) (request_runes other) rules root

pub search_path-insert_all :
    (routes : Dict RoutingRules) (path : String) (root : TrieNode)
    → search_path path (insert_all routes root)
      ≡ route_at (request_runes path) routes (search_path path root)
unfolding insert_all route_at
search_path-insert_all [] path root = refl
search_path-insert_all ((p, rules) ∷ rest) path root =
    rw
      (search_path-insert_all rest path (insert p rules root), search_path-insert p path rules root)
      refl

search_path-new_node : (path : String) → search_path path new_node ≡ none
unfolding search_path
search_path-new_node path = search_runes-new_node (request_runes path)

fresh_answer :
    (routes : Dict RoutingRules) (path : String)
    → search_path path (insert_all routes new_node) ≡ route_at (request_runes path) routes none
fresh_answer routes path =
    rw (search_path-insert_all routes path new_node, search_path-new_node path) refl

-- With an HTTP route or more, the middleware forwards a request to the rules of the last route that is
-- its path, up to the slash before either and the slash after the request's; it answers 404 when there
-- is none, and panics when the route has no rule.
pub setup_lem :
    (rules : Dict RoutingRules)
    → 0 < length (get_http_rules rules)
    → setup rules ≡ some λ path. respond (route_at (request_runes path) (get_http_rules rules) none)
unfolding setup
setup_lem rules h = elim (Bool-cases (length (get_http_rules rules) == 0)) [
  | inl empty ↦ absurd (ground arith)
  | inr some_rule ↦
      rw some_rule (λ i. some λ path. respond (fresh_answer (get_http_rules rules) path i))
]

length-trim_suffix_slash :
    (cs : List ℕ) → suc (length (trim_suffix (cs ++ b'/' ∷ []))) ≡ length (cs ++ b'/' ∷ [])
unfolding trim_suffix
length-trim_suffix_slash [] = refl
length-trim_suffix_slash (c ∷ []) = refl
length-trim_suffix_slash (c ∷ d ∷ cs) = ap suc (length-trim_suffix_slash (d ∷ cs))

-- A route whose path ends with a slash, other than "/" itself, has no effect on a request for that
-- very path: `Insert` keeps the last slash, `Search` removes it.
pub search_path-insert_slash :
    (path : String) (cs : List ℕ) (rules : RoutingRules) (root : TrieNode)
    → trim_prefix (codes path) ≡ cs ++ b'/' ∷ []
    → search_path path (insert path rules root) ≡ search_path path root
search_path-insert_slash path cs rules root e =
    elim (Bool-cases (same_runes (route_runes path) (request_runes path))) [
      | inr other ↦ rw (search_path-insert path path rules root, other) refl
      | inl same ↦
          let equal : route_runes path ≡ request_runes path = (same_runes_iff _ _).0 same in
          let longer = length-trim_suffix_slash cs in
          let shorter : length (trim_suffix (cs ++ b'/' ∷ [])) ≡ length (cs ++ b'/' ∷ []) =
            rw (← e) (ap length (sym equal)) in
          absurd (omega (arith, longer, shorter))
    ]
