-- ===== src/Proxy/Forward.antt =====
-- internal/core/routing/proxy/http_proxy.go: what a forwarded request answers and counts. Whether the
-- target parses, whether the pool has a client and how the backend answers are arguments.
pub mod Counts
mod Tests
use mini_gateway.Common.{ℕ, String, Bool, true, false, List, [], ◌∷◌, str_eq, if◌then◌else◌}

-- A backend's status, or an error.
pub data Backend : Type 0 where
  answered : ℕ → Backend
  unavailable : Backend

-- The status that the client gets, and the calls of `UpdateRequestCount`, in order.
pub record Forwarded : Type 0 where
  pub status : ℕ
  pub counts : List Bool

abbrev handle_proxy_error : Forwarded
handle_proxy_error = record { status = 502; counts = false ∷ [] }

-- `proxyDirect`: the reverse proxy's error handler counts a failure, and the call after ServeHTTP
-- counts a success.
unfoldable pub proxy_direct : Bool → Backend → Forwarded
proxy_direct false backend = handle_proxy_error
proxy_direct true (answered status) = record { status = status; counts = true ∷ [] }
proxy_direct true unavailable = record { status = 502; counts = false ∷ true ∷ [] }

unfoldable pub proxy_with_pool : Bool → Backend → Forwarded
proxy_with_pool false backend = handle_proxy_error
proxy_with_pool true (answered status) = record { status = status; counts = true ∷ [] }
proxy_with_pool true unavailable = handle_proxy_error

-- The handler of a route, once a target was chosen.
unfoldable pub forward : Bool → String → Bool → Backend → Forwarded
unfolding proxy_direct proxy_with_pool
forward http_pool_enabled target usable backend =
    if str_eq target ""
    then record { status = 503; counts = [] }
    else if http_pool_enabled
    then proxy_with_pool usable backend
    else proxy_direct usable backend
