-- ===== src/Pipeline/Meaning.antt =====
-- What the programs of ch01-01-pipeline.rs mean, and the machine against it.
pub mod Defs
pub mod Operators
pub mod Goes
pub mod Exprs
pub mod Statements
pub mod Safe
