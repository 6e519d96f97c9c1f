-- ===== src/Servers.antt =====
-- task16_cs_models: the servers that answer each request with the time. Producer models the one with a
-- message queue.
pub mod Buffered
pub mod Multiplexed
mod Tests
