-- ===== src/Router/Trie.antt =====
-- internal/core/routing/router/trie.go: exact routes in a trie.
pub mod Routes
use mini_gateway.Common.{
  ℕ, String, Bool, List, [], ◌∷◌, Option, none, some, Dict, Outcome, ◌==◌, length, codes,
  if◌then◌else◌,
}
use mini_gateway.Config.{RoutingRules, get_http_rules}
use mini_gateway.Router.{Routed, respond}
use mini_gateway.Router.Node.{TrieNode, new_node, insert_runes, search_runes}

-- `TrimPrefix(path, "/")` and `TrimSuffix(path, "/")`.
unfoldable pub trim_prefix : List ℕ → List ℕ
trim_prefix [] = []
trim_prefix (c ∷ cs) = if c == b'/' then cs else c ∷ cs

unfoldable pub trim_suffix : List ℕ → List ℕ
trim_suffix [] = []
trim_suffix (c ∷ []) = if c == b'/' then [] else c ∷ []
trim_suffix (c ∷ d ∷ cs) = c ∷ trim_suffix (d ∷ cs)

unfoldable pub insert : String → RoutingRules → TrieNode → TrieNode
unfolding insert_runes trim_prefix
insert path rules root = insert_runes (trim_prefix (codes path)) rules root

unfoldable pub search_path : String → TrieNode → Option RoutingRules
unfolding search_runes trim_prefix trim_suffix
search_path path root = search_runes (trim_suffix (trim_prefix (codes path))) root

unfoldable pub insert_all : Dict RoutingRules → TrieNode → TrieNode
unfolding insert
insert_all [] root = root
insert_all ((path, rules) ∷ rest) root = insert_all rest (insert path rules root)

-- The middleware that `Setup` installs; without an HTTP route it installs none.
unfoldable pub setup : Dict RoutingRules → Option (String → Outcome Routed)
unfolding insert_all search_path respond
setup rules =
    let http_rules = get_http_rules rules in
    if length http_rules == 0
    then none
    else some λ path. respond (search_path path (insert_all http_rules new_node))
