-- ===== src/Regalloc/Driver.antt =====
-- The passes in the order in which `main` of ch08-01-regalloc.rs calls them.
pub mod Defs
pub mod Sound
pub mod Verified
