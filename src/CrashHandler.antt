-- ===== src/CrashHandler.antt =====
-- The crash record in RTC memory, of utils/crash_handler.c and utils/crash_handler.h.
pub mod Strings
pub mod Record
pub mod Handlers
pub mod Check
pub mod Terminated
pub mod Steps
pub mod Log
pub mod Reported
pub mod Boots
mod Tests
