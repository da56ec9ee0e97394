-- ===== src/Pasqal.antt =====
-- The Pasqal Cloud resource (src/pasqal).
pub mod Expand
pub mod File
pub mod Config
pub mod Client
pub mod Cloud
pub mod Local
