-- ===== src/Service.antt =====
-- The resources of a job (src/service.rs, src/common/create_resource.rs).
pub mod Discovery
use qrmi.Prelude.{Bool, true, false, Option, none, some, List, [], ◌∷◌, if◌then◌else◌, map}
use qrmi.Text.{Text, eq_text, trim}
use qrmi.Result.{Result, ok, err}
use qrmi.Exec.{Exec, ◌>>=◌, return, lift}
use qrmi.Errors.{QrmiError}
use qrmi.Models.{ResourceType, ResourceStatusCode, ResourceStatus, online, offline, paused}
use qrmi.Models.Names.{from_qpu_type_str}
use qrmi.Settings.{Env, Config}
use qrmi.JobEnv.{get_job_qpu_resources_and_types}
use qrmi.Resource.{QuantumResource}

-- The constructors `new` of the resources, which read the environment; `W` holds it, the objects and
-- the services.
pub record Constructors (W : Type 0) : Type 0 where
  pub ibm_quantum_system : Text → Exec W QrmiError (QuantumResource W)
  pub qiskit_runtime_service : Text → Exec W QrmiError (QuantumResource W)
  pub ibm_quantum_compute_service : Text → Exec W QrmiError (QuantumResource W)
  pub pasqal_cloud : Text → Exec W QrmiError (QuantumResource W)
  pub pasqal_local : Text → Exec W QrmiError (QuantumResource W)
  pub alice_bob_felis : Text → Exec W QrmiError (QuantumResource W)
  pub iqm_server : Text → Exec W QrmiError (QuantumResource W)
  pub maestro_local : Text → Exec W QrmiError (QuantumResource W)
  pub oqtopus : Text → Exec W QrmiError (QuantumResource W)

abbrev pub is_online : ResourceStatusCode → Bool
is_online online = true
is_online offline = false
is_online paused = false

module _ {W : Type 0} (new : Constructors W) where
  unfoldable pub create_resource : ResourceType → Text → Exec W QrmiError (QuantumResource W)
  create_resource ResourceType.ibm_quantum_system id = new.ibm_quantum_system id
  create_resource ResourceType.qiskit_runtime_service id = new.qiskit_runtime_service id
  create_resource ResourceType.ibm_quantum_compute_service id = new.ibm_quantum_compute_service id
  create_resource ResourceType.pasqal_cloud id = new.pasqal_cloud id
  create_resource ResourceType.pasqal_local id = new.pasqal_local id
  create_resource ResourceType.alice_bob_felis id = new.alice_bob_felis id
  create_resource ResourceType.iqm_server id = new.iqm_server id
  create_resource ResourceType.maestro_local id = new.maestro_local id
  create_resource ResourceType.oqtopus id = new.oqtopus id

  -- The map `resources` of a `QRMIService`, with one entry to a name.
  abbrev pub ResourceMap : Type 0
  ResourceMap = List (Text × QuantumResource W)

  unfoldable pub remove : Text → ResourceMap → ResourceMap
  unfolding eq_text
  remove name [] = []
  remove name ((n, r) ∷ rest) =
      let others = remove name rest in if eq_text n name then others else (n, r) ∷ others

  -- `HashMap::insert` and `HashMap::get_mut`.
  unfoldable pub insert : Text → QuantumResource W → ResourceMap → ResourceMap
  unfolding remove
  insert name r resources = (name, r) ∷ remove name resources

  unfoldable pub resource : ResourceMap → Text → Option (QuantumResource W)
  unfolding eq_text
  resource [] resource_id = none
  resource ((n, r) ∷ rest) resource_id =
      if eq_text n resource_id then some r else resource rest resource_id

  abbrev pub added : Bool → Text → QuantumResource W → ResourceMap → ResourceMap
  added true name r resources = insert name r resources
  added false name r resources = resources

  -- The turn of the loop for a QPU whose type is known.
  unfoldable pub admit : Text → ResourceMap → ResourceType → Exec W QrmiError ResourceMap
  unfolding create_resource insert
  admit name resources resource_type = do
    r ← create_resource resource_type name
    s ← r.status
    return (added (is_online s.status) name r resources)

  abbrev pub turn : Text → ResourceMap → Option ResourceType → Exec W QrmiError ResourceMap
  turn qpu resources none = return resources
  turn qpu resources (some resource_type) = admit (trim qpu) resources resource_type

  -- The loop over `qpus.iter().zip(qpu_types.iter())`; a type that is not known is passed over.
  unfoldable pub discover : List Text → List Text → ResourceMap → Exec W QrmiError ResourceMap
  unfolding from_qpu_type_str admit trim
  discover (qpu ∷ qpus) (qpu_type ∷ qpu_types) resources = do
    more ← turn qpu resources (from_qpu_type_str qpu_type)
    discover qpus qpu_types more
  discover _ _ resources = return resources

  abbrev pub discover_all : List Text × List Text → Exec W QrmiError ResourceMap
  discover_all (qpus, qpu_types) = discover qpus qpu_types []

  -- `QRMIService::new`, after the set-up of the logger.
  unfoldable pub new_service : Env → Exec W QrmiError ResourceMap
  unfolding get_job_qpu_resources_and_types discover
  new_service env = do lists ← lift (get_job_qpu_resources_and_types env); discover_all lists

-- The same with the constructors `from_config`, which read a map.
unfoldable pub create_resource_from_config :
    {W : Type 0}
    → (Config → Constructors W)
    → ResourceType
    → Text
    → Config
    → Exec W QrmiError (QuantumResource W)
unfolding create_resource
create_resource_from_config from_config resource_type resource_id config =
    create_resource (from_config config) resource_type resource_id
