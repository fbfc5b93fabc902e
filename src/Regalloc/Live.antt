-- ===== src/Regalloc/Live.antt =====
-- `uses_defs` and `liveness` of ch08-01-regalloc.rs.
pub mod Defs
pub mod Sets
pub mod Reads
pub mod Ascending
pub mod Grows
pub mod Tame
pub mod Ends
pub mod Equations
pub mod Total
pub mod Solved
