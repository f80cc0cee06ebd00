-- ===== src/Chat.antt =====
-- internal/app/chat: messages and attachments, clients, rooms, and the manager of the rooms.
pub mod Attachment
pub mod Channel
pub mod Message
pub mod World
pub mod Client
pub mod Room
pub mod Keeps
pub mod Frames
pub mod Fixture
pub mod Hub
pub mod Manager
