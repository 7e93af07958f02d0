-- ===== src/Proxy/HttpPool.antt =====
-- internal/core/routing/proxy/http_pool.go: one client for each host. What `url.Parse` finds as the host of a
-- target is a parameter, with "" for none and `none` for an error. A client is told apart by its number.
pub mod Clients
mod Tests
use mini_gateway.Common.{
  ℕ, suc, String, Bool, List, [], ◌∷◌, Option, none, some, Dict, lookup, insert, str_eq,
  if◌then◌else◌,
}
use mini_gateway.Config.{RoutingRule, RoutingRules, get_http_rules}

pub record HostClient : Type 0 where
  pub number : ℕ
  pub addr : String
  pub max_conns : ℕ

-- `made` counts the clients made so far, also those that `LoadOrStore` did not store.
pub record HttpPool : Type 0 where
  pub clients : Dict HostClient
  pub max_conns_per_host : ℕ
  pub made : ℕ

unfoldable pub new_host_client : HttpPool → String → HostClient
new_host_client p addr = record { number = p.made; addr = addr; max_conns = p.max_conns_per_host }

abbrev stored : HttpPool → String → HostClient → Option HostClient → HostClient × HttpPool
stored p host client (some old) = (old, p)
stored p host client none = (client, record p { clients = insert host client p.clients })

-- `LoadOrStore` with a new client.
unfoldable pub load_or_store : HttpPool → String → HostClient × HttpPool
unfolding lookup insert new_host_client
load_or_store p host =
    stored (record p { made = suc p.made }) host (new_host_client p host) (lookup host p.clients)

module _ (host_of : String → Option String) where
  abbrev or_target : String → Option String → Option String
  or_target target none = none
  or_target target (some host) = if str_eq host "" then some target else some host

  unfoldable pub normalize_target : String → Option String
  normalize_target target = or_target target (host_of target)

  abbrev load_host : HttpPool → String → Option HostClient → HostClient × HttpPool
  unfolding load_or_store
  load_host p host (some client) = (client, p)
  load_host p host none = load_or_store p host

  abbrev get_host : HttpPool → Option String → Option HostClient × HttpPool
  unfolding load_host lookup
  get_host p none = (none, p)
  get_host p (some host) =
      let (client, p') = load_host p host (lookup host p.clients) in (some client, p')

  -- `none` is an error.
  unfoldable pub get_client : String → HttpPool → Option HostClient × HttpPool
  unfolding normalize_target get_host
  get_client target p = get_host p (normalize_target target)

  abbrev initialize_host : HttpPool → Option String → HttpPool
  unfolding load_or_store
  initialize_host p none = p
  initialize_host p (some host) = (load_or_store p host).1

  initialize_rules : RoutingRules → HttpPool → HttpPool
  unfolding normalize_target initialize_host
  initialize_rules [] p = p
  initialize_rules (rule ∷ rules) p =
      initialize_rules rules (initialize_host p (normalize_target rule.target))

  initialize_routes : Dict RoutingRules → HttpPool → HttpPool
  unfolding initialize_rules
  initialize_routes [] p = p
  initialize_routes (route ∷ routes) p = initialize_routes routes (initialize_rules route.1 p)

  -- `initializePool`.
  unfoldable pub initialize_pool : Dict RoutingRules → HttpPool → HttpPool
  unfolding initialize_routes get_http_rules
  initialize_pool rules p = initialize_routes (get_http_rules rules) p

  unfoldable pub new_http_pool : Bool → ℕ → Dict RoutingRules → HttpPool
  unfolding initialize_pool
  new_http_pool enabled max_conns rules =
      let empty : HttpPool = record { clients = []; max_conns_per_host = max_conns; made = 0 } in
      if enabled then initialize_pool rules empty else empty

  -- The pools after calls for these targets, in turn.
  unfoldable pub get_all : List String → HttpPool → HttpPool
  unfolding get_client
  get_all [] p = p
  get_all (target ∷ targets) p = get_all targets (get_client target p).1
