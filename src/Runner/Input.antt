-- ===== src/Runner/Input.antt =====
-- src/bin/task_runner.rs: what the task runner makes of its input file.
pub mod Accepted
pub mod Submitted
use qrmi.Prelude.{
  ℕ, zero, suc, ◌^◌, ◌==◌, ltb, Bool, true, false, not, ◌&&◌, ◌||◌, Option, none, some, List, [],
  ◌∷◌, ◌++◌, any, length, is_some, if◌then◌else◌,
}
use qrmi.Prelude.Int.{ℤ}
use qrmi.Text.{Text, codes, eq_text, eq_ignore_ascii_case, parse_i32}
use qrmi.Result.{Result, ok, err, ◌>>=◌, map_err, ok_or}
use qrmi.Models.{Payload}
use qrmi.Json.{
  Value, null, number, pos_int, string, object, Fields, Codec, get, lookup, keys, as_object, as_str,
  is_object, is_string, is_null, member, as_u64,
}
use qrmi.Settings.{Env}

pub data PrimitiveType : Type 0 where
  estimator sampler : PrimitiveType

unfoldable pub primitive_name : PrimitiveType → Text
primitive_name estimator = codes "estimator"
primitive_name sampler = codes "sampler"

pub record QrmiInput : Type 0 where
  pub job_runs : Option ℤ
  pub parameters : Option Value
  pub program_id : Option PrimitiveType
  pub sequence : Option Text

pub data ResourceType : Type 0 where
  -- input, job_type, qubits, simulator_type, simulation_method, observables, config
  maestro_local : Text → Text → ℕ → ℕ → ℕ → Text → Text → ResourceType
  ibm_quantum_system : Text → PrimitiveType → ResourceType
  qiskit_runtime_service : Text → PrimitiveType → ResourceType
  ibm_quantum_compute_service : Text → PrimitiveType → ResourceType
  pasqal_cloud : Text → ℤ → ResourceType
  pasqal_local : Text → ℤ → ResourceType

pub data InputError : Type 0 where
  -- the file, and why it cannot be read
  unreadable : Text → Text → InputError
  -- of the JSON library
  json : Text → InputError
  -- the JSON library's for a legacy job whose fields are missing or of another type
  malformed_job : InputError
  missing_property : Text → InputError
  unsupported : Text → InputError
  message : Text → InputError

abbrev pub contains_text : List Text → Text → Bool
contains_text texts t = any (λ u. eq_text u t) texts

abbrev pub legacy_names : List Text
legacy_names =
    codes "input"
    ∷ codes "job_type"
    ∷ codes "qubits"
    ∷ codes "simulator_type"
    ∷ codes "simulation_method"
    ∷ codes "observables"
    ∷ codes "config"
    ∷ []

abbrev pub foreign_names : List Text
foreign_names =
    codes "job_spec"
    ∷ codes "program_id"
    ∷ codes "parameters"
    ∷ codes "job_runs"
    ∷ codes "sequence"
    ∷ codes "human_qir"
    ∷ codes "input_params"
    ∷ codes "iqmjson"
    ∷ codes "use_timeslot"
    ∷ codes "tag"
    ∷ []

abbrev pub refuse_if : Bool → Text → Result InputError (Unit {0})
refuse_if true text = err (message text)
refuse_if false text = ok tt

abbrev pub has : Fields → Text → Bool
has fields name = is_some (lookup name fields)

-- The names of the document's members.
unfoldable pub checked_envelope : Fields → Result InputError (Unit {0})
unfolding keys lookup eq_text
checked_envelope fields = do
  own ←
      refuse_if (any (contains_text foreign_names) (keys fields))
        (codes "Maestro payload cannot contain another backend's fields")
  alone ←
      refuse_if (has fields (codes "request") && not (length (keys fields) == 1))
        (codes "Wrapped Maestro requests accept only the request field")
  refuse_if
      (not (has fields (codes "request"))
        && not (has fields (codes "schema_version"))
        && any (λ key. not (contains_text legacy_names key)) (keys fields))
      (codes "Unknown Maestro payload field")

abbrev pub names_request : Option Value → Bool
names_request (some (string kind)) = eq_ignore_ascii_case kind (codes "request")
names_request _ = false

abbrev pub required_request : Option Value → Result InputError (Option Value)
required_request none = err (message (codes "Missing request input"))
required_request (some request) = ok (some request)

abbrev pub unless_wrapped : Fields → Option Value → Result InputError (Option Value)
unless_wrapped fields (some request) = ok (some request)
unless_wrapped fields none =
    if has fields (codes "schema_version")
    then ok (some (object fields))
    else if names_request (lookup (codes "job_type") fields)
    then required_request (lookup (codes "input") fields)
    else ok none

-- The native request that the document holds, if it holds one.
unfoldable pub native_request : Fields → Result InputError (Option Value)
unfolding lookup eq_ignore_ascii_case
native_request fields = unless_wrapped fields (lookup (codes "request") fields)

abbrev pub is_version_2 : Option ℕ → Bool
is_version_2 (some n) = n == 2
is_version_2 none = false

abbrev pub is_native : Value → Bool
is_native request =
    is_object request && is_version_2 (as_u64 (member request (codes "schema_version")))

abbrev pub is_mixed : Text → Bool
is_mixed key =
    contains_text foreign_names key
    || eq_text key (codes "request")
    || (not (eq_text key (codes "observables")) && contains_text legacy_names key)

abbrev pub keys_of : Value → List Text
keys_of (object fields) = keys fields
keys_of _ = []

-- A request in a text is read.
abbrev pub read : Codec → Text → Option Value → Result InputError Value
read codec t none = err (json (codec.parse_error t))
read codec t (some value) = ok value

abbrev pub unwrapped : Codec → Value → Result InputError Value
unwrapped codec (string serialized) = read codec serialized (codec.from_str serialized)
unwrapped codec request = ok request

unfoldable pub native_input : Codec → Value → Result InputError ResourceType
unfolding keys lookup eq_text
native_input codec wrapped = do
  request ← unwrapped codec wrapped
  current ← refuse_if (not (is_native request)) (codes "Maestro request requires schema_version=2")
  pure ←
      refuse_if (any is_mixed (keys_of request))
        (codes "Native Maestro request cannot mix payload envelopes")
  ok (maestro_local (codec.to_string request) (codes "request") 0 0 0 [] (codes "{}"))

-- What serde derives for the fields of a legacy job.
abbrev pub text_in : Option Value → Result InputError Text
text_in (some (string t)) = ok t
text_in _ = err malformed_job

abbrev pub text_or_empty : Option Value → Result InputError Text
text_or_empty none = ok []
text_or_empty (some value) = text_in (some value)

abbrev pub bounded : ℕ → Result InputError ℕ
bounded n = if ltb n (2 ^ 32) then ok n else err malformed_job

abbrev pub u32_in : Option Value → Result InputError ℕ
u32_in (some (number (pos_int n))) = bounded n
u32_in _ = err malformed_job

abbrev pub value_in : Option Value → Result InputError Value
value_in none = err malformed_job
value_in (some value) = ok value

abbrev pub value_or_null : Option Value → Value
value_or_null none = null
value_or_null (some value) = value

-- A value as it is passed on.
abbrev pub serialize : Codec → Value → Text
serialize codec (string t) = t
serialize codec value = codec.to_string value

abbrev pub config_text : Codec → Value → Text
config_text codec null = codes "{}"
config_text codec value = serialize codec value

abbrev pub is_known : Text → Bool
is_known job_type =
    eq_ignore_ascii_case job_type (codes "execute")
    || eq_ignore_ascii_case job_type (codes "estimate")

abbrev pub is_config : Value → Bool
is_config config = is_null config || is_object config || is_string config

-- The checks of a legacy job that was read.
unfoldable pub checked_job :
    Codec → Value → Text → ℕ → ℕ → ℕ → Text → Value → Result InputError ResourceType
unfolding eq_ignore_ascii_case
checked_job codec input job_type qubits simulator_type simulation_method observables config = do
  known ← refuse_if (not (is_known job_type)) (codes "Unknown Maestro job_type")
  fits ←
      refuse_if (not (is_config config))
        (codes "Maestro config must be an object or serialized object")
  whole ←
      refuse_if (qubits == 0 || not (is_string input))
        (codes "Legacy Maestro jobs require positive qubits and string input")
  ok (
      maestro_local (serialize codec input) job_type qubits simulator_type simulation_method
        observables (config_text codec config))

unfoldable pub legacy_input : Codec → Fields → Result InputError ResourceType
unfolding lookup checked_job
legacy_input codec fields = do
  input ← value_in (lookup (codes "input") fields)
  job_type ← text_in (lookup (codes "job_type") fields)
  qubits ← u32_in (lookup (codes "qubits") fields)
  simulator_type ← u32_in (lookup (codes "simulator_type") fields)
  simulation_method ← u32_in (lookup (codes "simulation_method") fields)
  observables ← text_or_empty (lookup (codes "observables") fields)
  checked_job codec input job_type qubits simulator_type simulation_method observables
      (value_or_null (lookup (codes "config") fields))

abbrev pub native_or_legacy : Codec → Fields → Option Value → Result InputError ResourceType
native_or_legacy codec fields (some request) = native_input codec request
native_or_legacy codec fields none = legacy_input codec fields

abbrev pub input_of : Codec → Option Fields → Result InputError ResourceType
input_of codec none = err (message (codes "Maestro payload must be an object"))
input_of codec (some fields) = do
  checked ← checked_envelope fields
  native ← native_request fields
  native_or_legacy codec fields native

unfoldable pub maestro_input : Codec → Value → Result InputError ResourceType
unfolding checked_envelope native_request native_input legacy_input
maestro_input codec value = input_of codec (as_object value)

abbrev pub property : {A : Type 0} → Text → Option A → Result InputError A
property name none = err (missing_property name)
property name (some a) = ok a

-- The parameters and the program of a primitive, and the sequence and the runs of a Pulser job.
unfoldable pub primitive_input :
    Codec → QrmiInput → (Text → PrimitiveType → ResourceType) → Result InputError ResourceType
primitive_input codec input made = do
  parameters ← property (codes "parameters") input.parameters
  program_id ← property (codes "program_id") input.program_id
  ok (made (codec.to_string parameters) program_id)

unfoldable pub pulser_input : QrmiInput → (Text → ℤ → ResourceType) → Result InputError ResourceType
pulser_input input made = do
  job_runs ← property (codes "job_runs") input.job_runs
  sequence ← property (codes "sequence") input.sequence
  ok (made sequence job_runs)

abbrev pub typed_input : Codec → Text → QrmiInput → Result InputError ResourceType
typed_input codec qpu_type input =
    if eq_text qpu_type (codes "ibm-quantum-system")
    then primitive_input codec input ibm_quantum_system
    else if eq_text qpu_type (codes "qiskit-runtime-service")
    then primitive_input codec input qiskit_runtime_service
    else if eq_text qpu_type (codes "ibm-quantum-compute-service")
    then primitive_input codec input ibm_quantum_compute_service
    else if eq_text qpu_type (codes "pasqal-cloud")
    then pulser_input input pasqal_cloud
    else if eq_text qpu_type (codes "pasqal-local")
    then pulser_input input pasqal_local
    else err (unsupported qpu_type)

-- What serde derives for `QrmiInput` is the parameter `read_input`.
abbrev pub payload_input :
    Codec → (Text → Result Text QrmiInput) → Text → Text → Result InputError ResourceType
payload_input codec read_input qpu_type payload =
    if eq_text qpu_type (codes "maestro-local")
    then (do value ← read codec payload (codec.from_str payload); maestro_input codec value)
    else (do input ← map_err json (read_input payload); typed_input codec qpu_type input)

-- `ResourceType::new`, of what the reading of the file returned.
unfoldable pub new_resource_type :
    Codec
    → (Text → Result Text QrmiInput)
    → Text
    → Text
    → Result Text Text
    → Result InputError ResourceType
unfolding eq_text maestro_input primitive_input pulser_input
new_resource_type codec read_input qpu_type path (err reason) = err (unreadable path reason)
new_resource_type codec read_input qpu_type path (ok payload) =
    payload_input codec read_input qpu_type payload

-- `ResourceType::as_str`.
unfoldable pub type_name : ResourceType → Text
type_name (maestro_local _ _ _ _ _ _ _) = codes "maestro-local"
type_name (ibm_quantum_system _ _) = codes "ibm-quantum-system"
type_name (qiskit_runtime_service _ _) = codes "qiskit-runtime-service"
type_name (ibm_quantum_compute_service _ _) = codes "ibm-quantum-compute-service"
type_name (pasqal_cloud _ _) = codes "pasqal-cloud"
type_name (pasqal_local _ _) = codes "pasqal-local"

unfoldable pub to_payload : ResourceType → Option Payload
unfolding primitive_name
to_payload
      (maestro_local input job_type qubits simulator_type simulation_method observables config) =
    some (
      Payload.maestro_local input job_type qubits simulator_type simulation_method observables
        config)
to_payload (ibm_quantum_system input program_id) =
    some (Payload.qiskit_primitive input (primitive_name program_id))
to_payload (qiskit_runtime_service input program_id) =
    some (Payload.qiskit_primitive input (primitive_name program_id))
to_payload (ibm_quantum_compute_service input program_id) =
    some (Payload.qiskit_primitive input (primitive_name program_id))
to_payload (pasqal_cloud sequence job_runs) = some (Payload.pasqal_cloud sequence job_runs)
to_payload (pasqal_local sequence job_runs) = some (Payload.pasqal_cloud sequence job_runs)
