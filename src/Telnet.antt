-- ===== src/Telnet.antt =====
-- telnet.c: the Telnet side of a session.
pub mod Codes
pub mod Scan
pub mod Escaping
pub mod Session
pub mod Negotiation
pub mod Cpc
pub mod Commands
