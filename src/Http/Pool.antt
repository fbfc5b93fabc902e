-- ===== src/Http/Pool.antt =====
-- `mod pool` of project-03-http-server.rs: workers on a bounded queue.
pub mod Defs
pub mod Invariant
pub mod Reached
pub mod Drain
