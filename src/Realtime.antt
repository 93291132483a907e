-- ===== src/Realtime.antt =====
-- backend/app/websocket: events, connections, the Redis backend and the event handlers.
pub mod Events
pub mod Manager
pub mod SortedSet
pub mod Redis
pub mod RedisBackend
pub mod Handlers
pub mod Handshake
pub mod Endpoint
