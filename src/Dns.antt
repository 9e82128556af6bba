-- ===== src/Dns.antt =====
-- The DNS messages of crates/pyatv-mdns/src/dns.
pub mod Reader
pub mod Name
pub mod Compress
pub mod Txt
pub mod Message
mod Runs
