-- ===== src/Ferrite/Codec.antt =====
-- `mod codec` of project-05-ferrite-v2.rs: lines out of the bytes of a connection.
pub mod Defs
pub mod Split
pub mod Decode
pub mod Feed
