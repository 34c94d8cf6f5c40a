-- ===== src/SystemCmd.antt =====
-- Console commands of cmds/cmd_system.c.
pub mod Names
pub mod Settings
pub mod Boots
pub mod Console
pub mod Partitions
mod Tests
