-- ===== src/Maestro.antt =====
-- Maestro Local: the client of its socket (dependencies/maestro_rust_library), and the resource over
-- that client (src/maestro/local.rs).
pub mod Socket
pub mod Session
pub mod Request
pub mod Local
