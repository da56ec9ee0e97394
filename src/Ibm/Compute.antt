-- ===== src/Ibm/Compute.antt =====
-- Qiskit Runtime Service and Quantum Compute Service (src/ibm/qiskit_runtime_service.rs,
-- src/ibm/quantum_compute_service.rs, and check_token of
-- dependencies/quantum_compute_client/src/apis/auth.rs). The two files hold the same code, but for
-- the names of the settings, the program `executor` and the method `status`.
pub mod Settings
pub mod State
pub mod Sessions
pub mod Tasks
pub mod Paging
pub mod Status
