-- ===== src/Chat.antt =====
-- Rooms and messages: src/modules/conversation and src/modules/message.
pub mod World
pub mod Rooms
pub mod Messages
pub mod Gateway
