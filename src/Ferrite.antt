-- ===== src/Ferrite.antt =====
-- Rust-Architect-Book/listings/part-13/project-05-ferrite-v2.rs, a key-value server.
pub mod Store
pub mod Protocol
pub mod Codec
pub mod Server
mod Concrete
mod Examples
