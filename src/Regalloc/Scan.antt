-- ===== src/Regalloc/Scan.antt =====
-- `intervals` and `linear_scan` of ch08-01-regalloc.rs.
pub mod Defs
pub mod Members
pub mod Fair
pub mod Assign
pub mod Spill
pub mod Sound
pub mod Spans
pub mod Covers
