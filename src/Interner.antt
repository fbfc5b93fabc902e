-- ===== src/Interner.antt =====
-- The interner of ch04-02-interner.rs.
pub mod Defs
pub mod RoundTrip
mod Examples
