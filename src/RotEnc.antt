-- ===== src/RotEnc.antt =====
-- The rotary encoder and its push button, utils/rot_enc.c and rot_enc.h: interrupt handlers and
-- timer callbacks put messages in a queue, and the task `rot_enc_cmd` turns them into events for
-- the user interface.
pub mod Handler
pub mod Keys
pub mod Presses
pub mod Activity
mod Tests
