-- ===== src/Ferrite/Server.antt =====
-- `mod server` of project-05-ferrite-v2.rs: one connection, and the limit on connections.
pub mod Defs
pub mod Serve
pub mod Counters
pub mod Limit
pub mod Bounded
pub mod Drain
