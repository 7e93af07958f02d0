-- ===== src/Router.antt =====
-- internal/core/routing: the engines that map a request's path to routing rules.
pub mod Node
pub mod Trie
pub mod TrieRegexp
pub mod Regexp
pub mod Setup
mod Tests
use mini_gateway.Common.{List, [], ◌∷◌, Option, none, some, Outcome, returns, panics}
use mini_gateway.Config.{RoutingRules}

-- What an engine's middleware does with a request: 404, or the proxy's handler for the rules.
pub data Routed : Type 0 where
  not_found : Routed
  proxied : RoutingRules → Routed

-- The middleware that the three engines share, after its lookup. It reads the first rule's target
-- for the trace before it forwards the request, and panics when a route has no rule.
unfoldable pub respond : Option RoutingRules → Outcome Routed
respond none = returns not_found
respond (some []) = panics
respond (some (rule ∷ rules)) = returns (proxied (rule ∷ rules))
