-- ===== src/Proxy/WebSocket/Tests.antt =====
-- Sessions over connections that are named by numbers.
use Prim.Native.String.{◌++◌ as str_append}
use mini_gateway.Common.{ℕ, ◌≡◌, true, String, [], ◌∷◌, none, some, str_eq, if◌then◌else◌, refl}
use mini_gateway.Common.Int.{pos}
use mini_gateway.Proxy.WebSocketPool.{WebSocketPool, get_conn}
use mini_gateway.Proxy.WebSocket.{
  Urls, to_backend, to_client, Session, full_target, serve_session, serve_sessions,
}
use mini_gateway.Proxy.WebSocket.Sessions.{Reaches, serve_session-reuses}

abbrev urls : Urls
urls = record {
  scheme_of = λ target. if str_eq target "ws://b:1" then some "ws" else none;
  join = str_append;
}

abbrev local_addr : ℕ → String
local_addr conn = "10.0.0.9:4000"

abbrev pool : WebSocketPool ℕ
pool = record { pool = []; max_idle = pos 10 }

abbrev session : ℕ → Session ℕ
session conn = record {
  path = "/websocket/chat";
  upgraded = true;
  chosen = "ws://b:1";
  dialed = some conn;
  carried = to_backend ∷ to_client ∷ [];
  carried_after = to_client ∷ [];
  client_addr = "10.0.0.9:8080";
}

prefix_trimmed : full_target urls "/websocket" "ws://b:1" "/websocket/chat" ≡ "ws://b:1/chat"
unfolding full_target
prefix_trimmed = refl

reaches : (conn : ℕ) → Reaches urls "/websocket" local_addr (session conn)
reaches conn = record { upgraded = refl; chosen = refl; scheme = refl }

serve_session-reuses_example :
    (serve_session urls "/websocket" local_addr (session 3) (
      serve_sessions urls "/websocket" local_addr
        (session 2 ∷ [])
        (serve_session urls "/websocket" local_addr (session 1) pool).1)).0.connection
    ≡ some 1
unfolding full_target get_conn
serve_session-reuses_example =
    serve_session-reuses urls "/websocket" local_addr pool (session 1) 1 (reaches 1) refl
      (session 2 ∷ []) (session 3) (reaches 3) refl
