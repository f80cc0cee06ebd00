-- ===== src/Chat/Client.antt =====
-- internal/app/chat/client.go, and NewMessage of message.go. A client is given by its pointer p.
pub mod Sending
pub mod Inbound
pub mod Pumps
pub mod Effects
pub mod Receiving
pub mod Posting
pub mod Pumping
pub mod Refreshing
mod Tests
