-- ===== src/NvsCerts.antt =====
-- The certificates that `get_all_nvscerts` of utils/utils.c reads.
pub mod Load
pub mod Loaded
mod Tests
