-- ===== src/Http/Message.antt =====
-- `mod http` of project-03-http-server.rs: requests in, responses out.
pub mod Defs
pub mod Read
pub mod Limits
pub mod Whole
pub mod RoundTrip
