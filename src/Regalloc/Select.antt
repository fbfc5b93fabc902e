-- ===== src/Regalloc/Select.antt =====
-- `place`, `select` and `emulate` of ch08-01-regalloc.rs.
pub mod Defs
pub mod Texts
pub mod Layout
pub mod Chunks
pub mod Jumps
pub mod Alive
pub mod Assigned
pub mod Simulates
