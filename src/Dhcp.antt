-- ===== src/Dhcp.antt =====
-- internal/dhcp: addresses, the address pool and the DHCP server.
pub mod Ip
pub mod Pool
pub mod Message
pub mod Server
