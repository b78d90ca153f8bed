-- ===== src/Dns.antt =====
-- rust/src/dnsmap.rs: the domain-to-token mapping, its file format, the rewriting of a host and the
-- watcher that reloads the file.
pub mod Mapping
pub mod Parse
pub mod Rewrite
pub mod Watch
