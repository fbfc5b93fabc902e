-- ===== src/Pipeline/Vm.antt =====
-- Stage 6 of ch01-01-pipeline.rs: the machine, and runs of it.
pub mod Defs
pub mod Steps
pub mod Stable
