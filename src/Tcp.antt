-- ===== src/Tcp.antt =====
-- http_server/tcp_server.c and tcp_server.h.
pub mod Session
pub mod Lifecycle
pub mod Tests
