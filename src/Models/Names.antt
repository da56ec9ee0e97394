-- ===== src/Models/Names.antt =====
-- The strings by which configurations name the resource types (src/models/config.rs), and those of
-- the status codes (src/models/resource_status.rs).
use qrmi.Prelude.{◌≡◌, refl, Option, none, some, if◌then◌else◌}
use qrmi.Text.{Text, codes, eq_text}
use qrmi.Models.{
  ResourceType, ibm_quantum_system, qiskit_runtime_service, ibm_quantum_compute_service,
  pasqal_local, ResourceStatusCode, online, offline, paused,
}

unfoldable pub as_str : ResourceType → Text
as_str ResourceType.ibm_quantum_system = codes "ibm-quantum-system"
as_str ResourceType.qiskit_runtime_service = codes "qiskit-runtime-service"
as_str ResourceType.ibm_quantum_compute_service = codes "ibm-quantum-compute-service"
as_str ResourceType.pasqal_cloud = codes "pasqal-cloud"
as_str ResourceType.pasqal_local = codes "pasqal-local"
as_str ResourceType.alice_bob_felis = codes "alice-bob-felis"
as_str ResourceType.iqm_server = codes "iqm-server"
as_str ResourceType.oqtopus = codes "oqtopus"
as_str ResourceType.maestro_local = codes "maestro-local"

unfoldable pub from_qpu_type_str : Text → Option ResourceType
unfolding eq_text
from_qpu_type_str s =
    if eq_text s (codes "ibm-quantum-system")
    then some ibm_quantum_system
    else if eq_text s (codes "qiskit-runtime-service")
    then some qiskit_runtime_service
    else if eq_text s (codes "ibm-quantum-compute-service")
    then some ibm_quantum_compute_service
    else if eq_text s (codes "pasqal-cloud")
    then some ResourceType.pasqal_cloud
    else if eq_text s (codes "pasqal-local")
    then some pasqal_local
    else if eq_text s (codes "alice-bob-felis")
    then some ResourceType.alice_bob_felis
    else if eq_text s (codes "iqm-server")
    then some ResourceType.iqm_server
    else if eq_text s (codes "oqtopus")
    then some ResourceType.oqtopus
    else if eq_text s (codes "maestro-local")
    then some ResourceType.maestro_local
    else none

-- Reading back the string by which a resource type is named gives the type.
from_qpu_type_str-as_str : (t : ResourceType) → from_qpu_type_str (as_str t) ≡ some t
unfolding from_qpu_type_str as_str
from_qpu_type_str-as_str ResourceType.ibm_quantum_system = refl
from_qpu_type_str-as_str _ = refl

unfoldable pub status_code_as_str : ResourceStatusCode → Text
status_code_as_str online = codes "online"
status_code_as_str offline = codes "offline"
status_code_as_str paused = codes "paused"
