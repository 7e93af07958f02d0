-- ===== src/Gateway.antt =====
-- cmd/gateway/main.go: the server's own handlers.
pub mod Routes
pub mod Login
pub mod Refresh
pub mod Server
pub mod Status
