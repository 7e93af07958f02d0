-- ===== src/Proxy.antt =====
-- internal/core/routing/proxy: the choice of a target for a request.
pub mod Selection
pub mod Forward
pub mod Pools
pub mod HttpPool
pub mod WebSocketPool
pub mod WebSocket
pub mod Grpc
pub mod Director
