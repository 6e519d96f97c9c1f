-- ===== src/Drivers.antt =====
-- task_drivers/main.c: drivers with timers, and the commands that reach them by pipes.
pub mod Driver
pub mod Manager
pub mod Idle
pub mod Asking
pub mod Commands
pub mod Safety
mod Tests
