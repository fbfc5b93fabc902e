-- ===== src/Pipeline.antt =====
-- Rust-Architect-Book/listings/part-17/ch01-01-pipeline.rs.
pub mod Syntax
pub mod Outcome
pub mod Lexer
pub mod Parser
pub mod Resolver
pub mod Checker
pub mod Lowerer
pub mod Vm
pub mod Driver
mod Tests
mod Examples
pub mod Meaning
