-- ===== src/FlashLed.antt =====
-- The LEDs that utils/utils.c blinks from a periodic timer.
pub mod Table
pub mod Power
pub mod Slots
pub mod Blink
mod Tests
