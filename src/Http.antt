-- ===== src/Http.antt =====
-- Rust-Architect-Book/listings/part-11/project-03-http-server.rs, an HTTP server on a pool of workers.
pub mod Pool
pub mod Message
pub mod Server
mod Examples
