-- ===== src/Wifi.antt =====
-- The connection to an access point: cmds/cmd_wifi.c.
pub mod Events
pub mod Join
pub mod Retries
pub mod Disconnecting
pub mod Joining
pub mod Credentials
pub mod Commands
mod Tests
