-- ===== src/Pipeline/Checker.antt =====
-- Stage 4 of ch01-01-pipeline.rs: the type checker and its typing rules.
pub mod Defs
pub mod Rules
pub mod Sound
pub mod Statements
pub mod Ends
