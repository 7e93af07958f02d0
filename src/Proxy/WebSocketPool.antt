-- ===== src/Proxy/WebSocketPool.antt =====
-- internal/core/routing/proxy/websocket_pool.go: the pool of connections by target. Connections are any
-- type; what dialling gives is an argument, and closing a connection has no effect on the pool.
pub mod Cleanup
mod Tests
use mini_gateway.Common.{
  ℕ, String, Bool, true, false, List, [], ◌∷◌, Option, none, some, Dict, lookup, insert, delete,
  length, map, if◌then◌else◌,
}
use mini_gateway.Common.Int.{ℤ, pos, ltb_ℤ}

pub record WebSocketPool (C : Type 0) : Type 0 where
  pub pool : Dict C
  pub max_idle : ℤ

module _ {C : Type 0} where
  found_or_dialed : String → Option C → Option C → WebSocketPool C → Option C × WebSocketPool C
  unfolding insert
  found_or_dialed target (some conn) dialed p = (some conn, p)
  found_or_dialed target none none p = (none, p)
  found_or_dialed target none (some conn) p =
      (some conn, record p { pool = insert target conn p.pool })

  -- The connection of a target, or one that is dialled and kept.
  unfoldable pub get_conn : String → Option C → WebSocketPool C → Option C × WebSocketPool C
  unfolding found_or_dialed lookup
  get_conn target dialed p = found_or_dialed target (lookup target p.pool) dialed p

  -- Closing until no more than `max_idle` are left, over targets in some order.
  unfoldable pub close_idle : ℤ → List String → Dict C → Dict C
  unfolding delete
  close_idle max_idle [] pool = pool
  close_idle max_idle (target ∷ targets) pool =
      let rest = close_idle max_idle targets (delete target pool) in
      if ltb_ℤ max_idle (pos (length pool)) then rest else pool

  -- One round of the clean-up, where `targets` are the pool's keys in the order of the visit.
  unfoldable pub cleanup : List String → WebSocketPool C → WebSocketPool C
  unfolding close_idle
  cleanup targets p =
      if ltb_ℤ p.max_idle (pos (length p.pool))
      then record p { pool = close_idle p.max_idle targets p.pool }
      else p
