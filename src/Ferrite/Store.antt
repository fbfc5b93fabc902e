-- ===== src/Ferrite/Store.antt =====
-- `mod store` of project-05-ferrite-v2.rs: the storage contract, and the sharded store.
pub mod Contract
pub mod Defs
pub mod Shards
pub mod Refines
pub mod Behaves
