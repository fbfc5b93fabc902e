-- ===== src/Regalloc.antt =====
-- The back end of Rust-Architect-Book/listings/part-17/ch08-01-regalloc.rs: liveness, live intervals,
-- linear-scan register allocation, instruction selection, and an emulator.
pub mod Code
pub mod Live
pub mod Scan
pub mod Select
pub mod Driver
mod Examples
