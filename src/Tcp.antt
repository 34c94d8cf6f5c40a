-- ===== src/Tcp.antt =====
-- The links over TCP: tcp/tcp_server.c and tcp/tcp_client.c.
pub mod Sending
pub mod Sent
pub mod Pieces
pub mod Server
pub mod Links
pub mod Loops
pub mod Sockets
pub mod Delivery
pub mod Client
pub mod Closing
pub mod Handshake
mod Tests
