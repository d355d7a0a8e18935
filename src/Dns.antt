-- ===== src/Dns.antt =====
-- ap_website/dnsserver/dnsserver.c.
pub mod Walk
pub mod Socket
pub mod Process
pub mod Tests
