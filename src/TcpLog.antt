-- ===== src/TcpLog.antt =====
-- The network log of tcp/tcp_log.c.
pub mod Init
pub mod Lines
pub mod Sending
mod Tests
