-- ===== src/SharedChat.antt =====
-- task14/chat: the chat over shared memory and semaphores. Its src/data.c is that of task13/chat, so
-- that the tables are those of Chat.Table.
pub mod Board
pub mod Server
pub mod Client
pub mod Exchange
mod Tests
