-- ===== src/Proxy/WebSocketPool/Tests.antt =====
-- Three connections, of which one may stay.
use mini_gateway.Common.{ℕ, String, List, [], ◌∷◌}
use mini_gateway.Common.Int.{pos}
use mini_gateway.Proxy.WebSocketPool.{WebSocketPool}

abbrev three : WebSocketPool ℕ
three = record { pool = ("a", 1) ∷ ("b", 2) ∷ ("c", 3) ∷ []; max_idle = pos 1 }

abbrev targets : List String
targets = "b" ∷ "a" ∷ "c" ∷ []
