-- ===== src/Ibm.antt =====
-- The resources and the providers of IBM (src/ibm).
pub mod Filter
pub mod Providers
pub mod Api
pub mod Compute
pub mod System
