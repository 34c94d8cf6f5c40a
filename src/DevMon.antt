-- ===== src/DevMon.antt =====
-- The device monitor of utils/dev_mon.c.
pub mod Handlers
pub mod Rows
pub mod Lines
pub mod Messages
mod Tests
