-- ===== src/Proxy/WebSocket.antt =====
-- internal/core/routing/proxy/websocket_proxy.go: a session, from the upgrade to the end of its message loops.
-- How URLs are parsed and joined, the target that the balancer chose, what dialling gives and which
-- messages are carried before an error ends a loop are arguments. Connections are any type.
pub mod Sessions
mod Tests
use Prim.Native.Char.{code}
use mini_gateway.Common.{
  ℕ, String, Bool, true, false, not, ◌||◌, List, [], ◌∷◌, ◌++◌, map, Option, none, some, ◌==◌,
  str_eq, if◌then◌else◌,
}
use mini_gateway.Proxy.WebSocketPool.{WebSocketPool, get_conn}

-- The rest of a text behind a prefix.
unfoldable pub cut_prefix : String → String → Option String
cut_prefix String.[] s = some s
cut_prefix (String.◌∷◌ c prefix) String.[] = none
cut_prefix (String.◌∷◌ c prefix) (String.◌∷◌ d s) =
    if code c == code d then cut_prefix prefix s else none

-- `strings.TrimPrefix`.
abbrev or_whole : String → Option String → String
or_whole s none = s
or_whole s (some rest) = rest

unfoldable pub trim_prefix : String → String → String
unfolding cut_prefix
trim_prefix s prefix = or_whole s (cut_prefix prefix s)

-- `scheme_of`: the scheme of a text that parses as a URL; `join`: the URL with a path joined to its own.
pub record Urls : Type 0 where
  pub scheme_of : String → Option String
  pub join : String → String → String

abbrev is_websocket_scheme : Option String → Bool
is_websocket_scheme none = false
is_websocket_scheme (some scheme) = str_eq scheme "ws" || str_eq scheme "wss"

-- What is dialled for a request's path.
unfoldable pub full_target : Urls → String → String → String → String
unfolding trim_prefix
full_target urls prefix target path =
    let adjusted = trim_prefix path prefix in
    if str_eq adjusted "" || str_eq adjusted "/" then target else urls.join target adjusted

-- A message was carried over to the backend or to the client.
pub data Direction : Type 0 where
  to_backend to_client : Direction

pub record Session (C : Type 0) : Type 0 where
  pub path : String
  pub upgraded : Bool
  pub chosen : String
  pub dialed : Option C
  pub carried : List Direction
  -- by the other loop, after the first error
  pub carried_after : List Direction
  -- the local address of the client's connection
  pub client_addr : String

-- What the client is sent in place of messages of the backend.
pub data Reply : Type 0 where
  upgrade_failed no_target invalid_target no_connection forwarded : Reply

-- The connection in use, and the calls of `UpdateRequestCount` in order.
pub record Served (C : Type 0) : Type 0 where
  pub reply : Reply
  pub connection : Option C
  pub counts : List (String × Bool)

module _ {C : Type 0} (urls : Urls) (prefix : String) (local_addr : C → String) where
  -- A message that was written counts as a success of the local address of the connection it went to.
  abbrev count_of : Session C → C → Direction → String × Bool
  count_of r conn to_backend = (local_addr conn, true)
  count_of r conn to_client = (r.client_addr, true)

  -- Each loop ends with an error, and the first one counts as a failure of the target.
  abbrev pub forward_messages : Session C → C → List (String × Bool)
  forward_messages r conn =
      map (count_of r conn) r.carried ++ ((r.chosen, false) ∷ map (count_of r conn) r.carried_after)

  abbrev pub serve_connection : Session C → Option C × WebSocketPool C → Served C × WebSocketPool C
  serve_connection r (none, p) =
      (record { reply = no_connection; connection = none; counts = (r.chosen, false) ∷ [] }, p)
  serve_connection r (some conn, p) =
      (record { reply = forwarded; connection = some conn; counts = forward_messages r conn }, p)

  abbrev refused : Reply → List (String × Bool) → WebSocketPool C → Served C × WebSocketPool C
  refused reply counts p = (record { reply = reply; connection = none; counts = counts }, p)

  unfoldable pub serve_session : Session C → WebSocketPool C → Served C × WebSocketPool C
  unfolding full_target get_conn
  serve_session r p =
      if not r.upgraded
      then refused upgrade_failed [] p
      else if str_eq r.chosen ""
      then refused no_target [] p
      else if not (is_websocket_scheme (urls.scheme_of r.chosen))
      then refused invalid_target ((r.chosen, false) ∷ []) p
      else serve_connection r (get_conn (full_target urls prefix r.chosen r.path) r.dialed p)

  unfoldable pub serve_sessions : List (Session C) → WebSocketPool C → WebSocketPool C
  unfolding serve_session
  serve_sessions [] p = p
  serve_sessions (r ∷ rs) p = serve_sessions rs (serve_session r p).1
