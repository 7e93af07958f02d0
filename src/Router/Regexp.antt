-- ===== src/Router/Regexp.antt =====
-- internal/core/routing/router/regexp.go: every route is a regular expression. Go's regexp package is
-- a parameter. `Match` visits the map in any order: the theorems hold for every order of the list.
pub mod Matches
use mini_gateway.Common.{
  String, Bool, List, [], ◌∷◌, Option, none, some, Dict, Outcome, length, lookup, insert, ◌==◌,
  if◌then◌else◌,
}
use mini_gateway.Config.{RoutingRules, get_http_rules}
use mini_gateway.Router.{Routed, respond}
use mini_gateway.Router.TrieRegexp.{anchored}

pub record RegexpRouter (R : Type 0) : Type 0 where
  pub rules : Dict R
  pub cfg_rules : Dict RoutingRules

-- A read of `cfg.Routing.Rules`: a missing key has no rules.
abbrev pub rules_of : Option RoutingRules → RoutingRules
rules_of none = []
rules_of (some rules) = rules

module _ {R : Type 0} (compile : String → Option R) where
  add_compiled : String → Option R → Dict R → Dict R
  unfolding insert
  add_compiled path none rules = rules
  add_compiled path (some re) rules = insert path re rules

  register_rule : String → Dict R → Dict R
  unfolding add_compiled
  register_rule path rules = add_compiled path (compile (anchored path)) rules

  register_all : Dict RoutingRules → Dict R → Dict R
  unfolding register_rule
  register_all [] rules = rules
  register_all ((path, _) ∷ rest) rules = register_all rest (register_rule path rules)

  unfoldable pub new_regexp_router : Dict RoutingRules → RegexpRouter R
  unfolding register_all
  new_regexp_router rules = record {
    rules = register_all (get_http_rules rules) [];
    cfg_rules = rules;
  }

module _ {R : Type 0} (matches : R → String → Bool) where
  match_from : Dict R → String → Dict RoutingRules → Option RoutingRules
  unfolding lookup
  match_from [] path cfg_rules = none
  match_from ((pattern, re) ∷ rest) path cfg_rules =
      if matches re path
      then some (rules_of (lookup pattern cfg_rules))
      else match_from rest path cfg_rules

  unfoldable pub match_path : RegexpRouter R → String → Option RoutingRules
  unfolding match_from
  match_path router path = match_from router.rules path router.cfg_rules

module _ {R : Type 0} (compile : String → Option R) (matches : R → String → Bool) where
  unfoldable pub setup : Dict RoutingRules → Option (String → Outcome Routed)
  unfolding new_regexp_router match_path respond
  setup rules =
      if length (get_http_rules rules) == 0
      then none
      else some λ path. respond (match_path matches (new_regexp_router compile rules) path)
