-- ===== src/Router/Tests.antt =====
-- The engines at small configurations. A regular expression is, here, a text that matches itself.
use mini_gateway.Common.{
  ◌≡◌, refl, Bool, true, false, ◌∷◌, String, [], ◌++◌, Option, none, some, Dict, str_eq, codes,
  arith, insert, panics,
}
use mini_gateway.Common.Int.{pos}
use mini_gateway.Config.{RoutingRule, RoutingRules, get_http_rules}
use mini_gateway.Router.{respond}
use mini_gateway.Router.Node.{same_runes}
use mini_gateway.Router.Trie
use mini_gateway.Router.Trie.{trim_prefix}
use mini_gateway.Router.Trie.Routes.{request_runes, route_at, setup_lem}
use mini_gateway.Router.TrieRegexp
use mini_gateway.Router.TrieRegexp.{is_regex_pattern, anchored, new_trie_regexp, or_else}
use mini_gateway.Router.TrieRegexp.Answers.{search_path-insert_regex, matched}
use mini_gateway.Router.Regexp.{new_regexp_router, match_path}
use mini_gateway.Router.Regexp.Matches.{match_path_lem, IsAnswer}
use mini_gateway.Router.Setup.{validate_rules}

abbrev http : String → RoutingRule
http target = record {
  target = target;
  weight = pos 1;
  env = "stable";
  protocol = "http";
  health_check_path = "";
}

abbrev a_rules : RoutingRules
a_rules = http "http://a" ∷ []

abbrev routes : Dict RoutingRules
routes = ("/api", a_rules) ∷ ("/api/", http "http://b" ∷ []) ∷ ("/empty", []) ∷ []

setup_lem_example :
    Trie.setup routes
    ≡ some λ path. respond (route_at (request_runes path) (get_http_rules routes) none)
unfolding get_http_rules insert
setup_lem_example = setup_lem routes (omega arith)

answers :
    (route_at (request_runes "/api") routes none ≡ some a_rules)
    × (route_at (request_runes "/api/") routes none ≡ some a_rules)
    × (route_at (request_runes "/other") routes none ≡ none)
    × (respond (route_at (request_runes "/empty") routes none) ≡ panics)
unfolding route_at trim_prefix Trie.trim_suffix same_runes respond
answers = (refl, refl, refl, refl)

slash_runes : trim_prefix (codes "/api/") ≡ codes "api" ++ b'/' ∷ []
unfolding trim_prefix
slash_runes = refl

abbrev compile : String → Option String
compile pattern = some pattern

abbrev matches : String → String → Bool
matches re path = str_eq re path

search_path-insert_regex_example :
    TrieRegexp.search_path matches "/ab" (TrieRegexp.insert compile "/a.*" a_rules new_trie_regexp)
    ≡ or_else
        (TrieRegexp.search_path matches "/ab" new_trie_regexp)
        (matched compile matches (compile (anchored "/a.*")) "/ab" a_rules)
search_path-insert_regex_example =
    search_path-insert_regex compile matches "/a.*" "/ab" a_rules new_trie_regexp refl

longer_runes : trim_prefix (codes "/api/users") ≡ trim_prefix (codes "/api") ++ codes "/users"
unfolding trim_prefix
longer_runes = refl

match_path_lem_example :
    IsAnswer compile matches routes "^/api$"
      (match_path matches (new_regexp_router compile routes) "^/api$")
match_path_lem_example = match_path_lem compile matches routes "^/api$"

-- The spelling with an underscore is refused a path that its engine serves.
underscore_refused :
    (validate_rules "trie_regexp" (("/a.*", a_rules) ∷ []) ≡ false)
    × (validate_rules "trie-regexp" (("/a.*", a_rules) ∷ []) ≡ true)
unfolding validate_rules
underscore_refused = (refl, refl)
