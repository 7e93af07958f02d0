-- ===== src/Router/TrieRegexp.antt =====
-- internal/core/routing/router/trie_regexp.go: a trie of static routes with a list of regular
-- expressions at its root. Go's regexp package is a parameter: what compiles, and what matches.
pub mod Answers
use mini_gateway.Common.{
  ℕ, String, Bool, true, false, ◌||◌, List, [], ◌∷◌, ◌++◌, Option, none, some, Dict, Outcome, any,
  ◌==◌, length, codes, if◌then◌else◌,
}
use Prim.Native.String.{◌++◌ as str_append}
use mini_gateway.Config.{RoutingRules, get_http_rules}
use mini_gateway.Router.{Routed, respond}
use mini_gateway.Router.Node.{TrieNode, new_node, answer, insert_runes, walk_runes}
use mini_gateway.Router.Trie.{trim_prefix}

-- The runes of `.*+?()|[]^$\`.
abbrev pub is_special : ℕ → Bool
is_special c = any (◌==◌ c) (codes ".*+?()|[]^$\\")

abbrev pub is_regex_pattern : String → Bool
is_regex_pattern path = any is_special (codes path)

-- A pattern with its anchors.
abbrev pub anchored : String → String
anchored path = str_append "^" (str_append path "$")

pub record RegexRule (R : Type 0) : Type 0 where
  pub regex : R
  pub pattern : String
  pub rules : RoutingRules

-- `Insert` only ever adds to the list of the root.
pub record TrieRegexp (R : Type 0) : Type 0 where
  pub root : TrieNode
  pub regex_rules : List (RegexRule R)

unfoldable pub new_trie_regexp : {R : Type 0} → TrieRegexp R
new_trie_regexp = record { root = new_node; regex_rules = [] }

module _ {R : Type 0} (compile : String → Option R) where
  add_regex : Option R → String → RoutingRules → TrieRegexp R → TrieRegexp R
  add_regex none path rules t = t
  add_regex (some re) path rules t = record t {
    regex_rules = t.regex_rules ++ record { regex = re; pattern = path; rules = rules } ∷ [];
  }

  unfoldable pub insert : String → RoutingRules → TrieRegexp R → TrieRegexp R
  unfolding add_regex insert_runes trim_prefix
  insert path rules t =
      if is_regex_pattern path
      then add_regex (compile (anchored path)) path rules t
      else record t { root = insert_runes (trim_prefix (codes path)) rules t.root }

  unfoldable pub insert_all : Dict RoutingRules → TrieRegexp R → TrieRegexp R
  unfolding insert
  insert_all [] t = t
  insert_all ((path, rules) ∷ rest) t = insert_all rest (insert path rules t)

abbrev pub or_else : Option RoutingRules → Option RoutingRules → Option RoutingRules
or_else (some rules) later = some rules
or_else none later = later

module _ {R : Type 0} (matches : R → String → Bool) where
  unfoldable pub first_match : String → List (RegexRule R) → Option RoutingRules
  first_match path [] = none
  first_match path (rule ∷ rest) =
      if matches rule.regex path then some rule.rules else first_match path rest

  unfoldable pub search_path : String → TrieRegexp R → Option RoutingRules
  unfolding walk_runes trim_prefix first_match
  search_path path t =
      or_else (answer (walk_runes (trim_prefix (codes path)) t.root))
        (first_match path t.regex_rules)

module _ {R : Type 0} (compile : String → Option R) (matches : R → String → Bool) where
  unfoldable pub setup : Dict RoutingRules → Option (String → Outcome Routed)
  unfolding insert_all search_path respond new_trie_regexp
  setup rules =
      let http_rules = get_http_rules rules in
      if length http_rules == 0
      then none
      else some
          λ path. respond (search_path matches path (insert_all compile http_rules new_trie_regexp))
