-- ===== src/Pipeline/Resolver.antt =====
-- Stage 3 of ch01-01-pipeline.rs: the resolver, and its invariant.
pub mod Defs
pub mod Invariant
pub mod Statements
