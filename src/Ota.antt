-- ===== src/Ota.antt =====
-- Over-the-air updates: utils/ota.c.
pub mod Task
pub mod Flash
pub mod Handles
pub mod Selected
pub mod Images
pub mod Ends
mod Tests
