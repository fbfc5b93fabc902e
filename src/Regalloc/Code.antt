-- ===== src/Regalloc/Code.antt =====
-- The three-address code of ch08-01-regalloc.rs, and its interpreter.
pub mod Defs
