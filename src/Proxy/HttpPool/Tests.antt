-- ===== src/Proxy/HttpPool/Tests.antt =====
-- A pool for one route, with a parser that knows one URL.
use mini_gateway.Common.{
  ◌≡◌, true, false, String, List, [], ◌∷◌, Option, none, some, Dict, str_eq, if◌then◌else◌, refl,
}
use mini_gateway.Common.Int.{pos}
use mini_gateway.Config.{RoutingRules}
use mini_gateway.Proxy.HttpPool.{HostClient, normalize_target, get_client, get_all, new_http_pool}
use mini_gateway.Proxy.HttpPool.Clients.{get_client-stable}

abbrev host_of : String → Option String
host_of target =
    if str_eq target "http://a:1/x"
    then some "a:1"
    else if str_eq target "http://["
    then none
    else some ""

abbrev rules : Dict RoutingRules
rules =
    (
      "/a",
      record {
        target = "http://a:1/x";
        weight = pos 1;
        env = "";
        protocol = "http";
        health_check_path = "";
      }
          ∷ [],
    )
    ∷ []

-- A target of the configuration has its client from the start.
configured_client :
    (get_client host_of "a:1" (new_http_pool host_of true 512 rules)).0
    ≡ some (record { number = 0; addr = "a:1"; max_conns = 512 })
unfolding get_client new_http_pool
configured_client = refl

invalid_target : (get_client host_of "http://[" (new_http_pool host_of true 512 rules)).0 ≡ none
unfolding get_client new_http_pool
invalid_target = refl

get_client-stable_example :
    (c : HostClient) × ((get_client host_of "a:1"
        (get_all host_of ("b:2" ∷ []) (new_http_pool host_of false 512 rules))).0
      ≡ some c)
    × (c.addr ≡ "a:1")
    × ((later : List String) (other : String)
        → normalize_target host_of other ≡ some "a:1"
        → get_client host_of other (
            get_all host_of later
              (get_client host_of "a:1"
                (get_all host_of ("b:2" ∷ []) (new_http_pool host_of false 512 rules))).1)
          ≡ (
            some c,
            get_all host_of later
                (get_client host_of "a:1"
                  (get_all host_of ("b:2" ∷ []) (new_http_pool host_of false 512 rules))).1,
          ))
unfolding normalize_target
get_client-stable_example = get_client-stable host_of false 512 rules ("b:2" ∷ []) "a:1" "a:1" refl
