-- ===== src/Tests/Job.antt =====
-- The theorem on the resources of a job in the world of the task runner.
use qrmi.Prelude.{ℕ, ◌≡◌, refl, none, some, List, [], ◌∷◌, if◌then◌else◌}
use qrmi.Text.{Text, codes, eq_text}
use qrmi.Result.{ok}
use qrmi.Exec.{return}
use qrmi.Settings.{Env}
use qrmi.JobEnv.{get_job_qpu_resources_and_types}
use qrmi.Service.{Constructors, ResourceMap, resource, new_service}
use qrmi.Service.Discovery.{Entry, Visited, last_online, new_service-last_online}
use qrmi.Tests.World

abbrev new : Constructors ℕ
new = record {
  ibm_quantum_system = λ id. return World.resource;
  qiskit_runtime_service = λ id. return World.resource;
  ibm_quantum_compute_service = λ id. return World.resource;
  pasqal_cloud = λ id. return World.resource;
  pasqal_local = λ id. return World.resource;
  alice_bob_felis = λ id. return World.resource;
  iqm_server = λ id. return World.resource;
  maestro_local = λ id. return World.resource;
  oqtopus = λ id. return World.resource;
}

-- One emulator and one QPU of an unknown type.
abbrev env : Env
env key =
    if eq_text key (codes "QRMI_JOB_QPU_RESOURCES")
    then some (codes "emulator,other")
    else if eq_text key (codes "QRMI_JOB_QPU_TYPES")
    then some (codes "oqtopus,unheard-of")
    else none

abbrev resources : ResourceMap new
resources = (codes "emulator", World.resource) ∷ []

served : new_service new env 0 ≡ (ok resources, 0)
unfolding new_service eq_text
served = refl

new_service-last_online_example :
    (qpus : List Text) × (qpu_types : List Text) × (entries : List (Entry new))
    × (get_job_qpu_resources_and_types env ≡ ok (qpus, qpu_types))
    × Visited new qpus qpu_types 0 entries 0
    × ((name : Text) → resource new resources name ≡ last_online new name entries)
new_service-last_online_example = new_service-last_online new env 0 resources 0 served
