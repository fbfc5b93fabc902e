-- ===== src/Pipeline/Lexer.antt =====
-- Stage 1 of ch01-01-pipeline.rs: the lexer, and what its tokens spell.
pub mod Defs
pub mod Spelling
pub mod Sound
