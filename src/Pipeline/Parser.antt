-- ===== src/Pipeline/Parser.antt =====
-- Stage 2 of ch01-01-pipeline.rs: the parser, and the grammar that it reads.
pub mod Defs
pub mod Grammar
pub mod Tokens
pub mod Exprs
pub mod Took
pub mod Statements
pub mod Programs
pub mod Source
