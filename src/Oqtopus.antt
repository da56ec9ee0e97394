-- ===== src/Oqtopus.antt =====
-- The resource of OQTOPUS (src/oqtopus/lib.rs).
pub mod Config
pub mod Tasks
pub mod Promises
