-- ===== src/Pipeline/Lowerer.antt =====
-- Stage 5 of ch01-01-pipeline.rs: the lowerer, and the code that it comes to.
pub mod Defs
pub mod Layout
pub mod Patch
