-- ===== src/Chat.antt =====
-- task13/chat: the chat over a System V message queue.
pub mod Table
pub mod Protocol
pub mod Server
pub mod Client
pub mod Keyboard
mod Tests
