-- ===== src/Ferrite/Protocol.antt =====
-- `mod protocol` of project-05-ferrite-v2.rs: request lines in, replies out.
pub mod Defs
pub mod Words
pub mod Parse
pub mod RoundTrip
pub mod Refines
pub mod Lines
