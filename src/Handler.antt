-- ===== src/Handler.antt =====
-- internal/handler: the asset keys of deps.go, and the handlers of rooms, connections, accounts and files.
pub mod Assets
pub mod WebSocket
pub mod Rooms
pub mod Accounts
pub mod Joining
pub mod Files
