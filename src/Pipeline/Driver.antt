-- ===== src/Pipeline/Driver.antt =====
-- The driver of ch01-01-pipeline.rs: `compile`, and runs of what it compiles.
pub mod Defs
pub mod Agrees
pub mod Correct
pub mod Total
