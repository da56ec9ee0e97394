-- ===== src/Models.antt =====
-- The data that the resources share (src/models/*.rs).
pub mod Names
use qrmi.Prelude.{ℕ, Bool, Option}
use qrmi.Prelude.Int.{ℤ}
use qrmi.Text.{Text}

-- src/models/config.rs
pub data ResourceType : Type 0 where
  ibm_quantum_system qiskit_runtime_service ibm_quantum_compute_service : ResourceType
  pasqal_cloud pasqal_local alice_bob_felis iqm_server oqtopus maestro_local : ResourceType

-- src/models/task_status.rs
pub data TaskStatus : Type 0 where
  queued running completed failed cancelled : TaskStatus

-- src/models/resource_status.rs
pub data ResourceStatusCode : Type 0 where
  online offline paused : ResourceStatusCode

pub record ResourceCapacity : Type 0 where
  pub available_slots : ℕ
  pub max_slots : ℕ

pub record ResourceStatus : Type 0 where
  pub status : ResourceStatusCode
  pub status_reason : Option Text
  pub healthy : Option Bool
  pub busy : Option Bool
  pub capacity : Option ResourceCapacity
  pub pending_job_count : Option ℕ

-- src/models/payload.rs; the constructors' fields stand in the source's order.
pub data Payload : Type 0 where
  -- input, program_id
  qiskit_primitive : Text → Text → Payload
  -- sequence, job_runs
  pasqal_cloud : Text → ℤ → Payload
  -- human_qir, input_params
  alice_bob_felis : Text → Text → Payload
  -- iqmjson, job_type, use_timeslot, tag
  iqm_server : Text → Text → Option Bool → Option Text → Payload
  -- job_spec
  oqtopus : Text → Payload
  -- input, job_type, qubits, simulator_type, simulation_method, observables, config
  maestro_local : Text → Text → ℕ → ℕ → ℕ → Text → Text → Payload
