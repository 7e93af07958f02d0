-- ===== src/Security.antt =====
-- internal/core/security and internal/middleware/auth: who may send a request.
pub mod IpAcl
pub mod Auth
pub mod Injection
pub mod Jwt
mod Tests
use mini_gateway.Common.{ℕ, String, Option}

-- How a middleware ends: it goes on to the next handler, maybe with a username set in the request's
-- context, or it aborts with a status.
pub data Handled : Type 0 where
  next : Option String → Handled
  abort : ℕ → Handled
