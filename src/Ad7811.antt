-- ===== src/Ad7811.antt =====
-- The converter AD7811: ad7811/ad7811.c and comm/spicom.c.
pub mod Sampling
pub mod Sampled
pub mod Stopped
mod Tests
