-- ===== src/Dhcp.antt =====
-- ap_website/dhcpserver/dhcpserver.c and dhcpserver.h.
pub mod Options
pub mod Leases
pub mod Socket
pub mod Process
pub mod Run
pub mod Handshake
pub mod Tests
