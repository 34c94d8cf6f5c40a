-- ===== src/NvsConf.antt =====
-- The device configuration and how `get_nvs_conf` of utils/utils.c fills it from the `devcfg`
-- namespace of the non-volatile storage.
pub mod Conf
pub mod Load
pub mod Fields
pub mod Stored
mod Blocks
pub mod Boot
pub mod Overflow
mod Tests
