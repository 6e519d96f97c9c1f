-- ===== src/Echo.antt =====
-- task_echo: the UDP echo server that counts the messages of each client.
pub mod List
pub mod Server
mod Tests
