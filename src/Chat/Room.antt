-- ===== src/Chat/Room.antt =====
-- internal/app/chat/room.go: the room's handlers and its event loop. The map of clients gives for a
-- user's id the pointer of the client; a range over it goes in the order of the list.
pub mod Handlers
pub mod Invariant
pub mod Registering
pub mod Rejecting
pub mod Unregistering
pub mod Broadcasting
pub mod Loop
pub mod Exit
mod Tests
