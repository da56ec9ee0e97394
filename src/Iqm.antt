-- ===== src/Iqm.antt =====
-- The resource of IQM Server (src/iqm/server.rs, src/iqm/error.rs): its client as an interface, how
-- it is built, and how it explains errors.
pub mod Status
pub mod Tasks
pub mod Promises
use qrmi.Prelude.{ℕ, Option, none, some, List, [], ◌∷◌, ◌++◌, Bool, ◌==◌, if◌then◌else◌}
use qrmi.Prelude.Int.{ℤ}
use qrmi.Text.{Text, codes, split}
use qrmi.Result.{Result, ok, err, ◌>>=◌}
use qrmi.Exec.{Exec}
use qrmi.Errors.{QrmiError, Message, text}
use qrmi.Settings.{Env, Config, resolve_opt, resolve_opt_required}

pub data ResourceKind : Type 0 where
  backend job : ResourceKind

-- `ResponseError`: the number of the status, the body and the error as it is printed; and the other
-- errors, printed.
pub data ApiError : Type 0 where
  response_error : ℕ → Text → Text → ApiError
  transport : Text → ApiError

abbrev pub not_found : Text → ResourceKind → QrmiError
not_found body backend = QrmiError.resource_not_found body
not_found body job = QrmiError.task_not_found body

unfoldable pub classify : ApiError → ResourceKind → QrmiError
classify (response_error status body printed) resource_kind =
    if status == 400
    then QrmiError.invalid_input (text body ∷ [])
    else if status == 401
    then QrmiError.authentication_failed body
    else if status == 404
    then not_found body resource_kind
    else QrmiError.other (text printed ∷ [])
classify (transport message) resource_kind = QrmiError.other (text message ∷ [])

pub data IqmServerJobStatus : Type 0 where
  waiting processing completed failed cancelled : IqmServerJobStatus

-- The timestamp as the log prints it, and the two other columns.
pub record Event : Type 0 where
  pub timestamp : Text
  pub source : Text
  pub status : Text

pub record LogMessage : Type 0 where
  pub source : Text
  pub message : Text

-- `IqmServerJob`. `members` are the values of the members in JSON, by name.
pub record Job (Value : Type 0) : Type 0 where
  pub id : Text
  pub status : IqmServerJobStatus
  pub timeline : List Event
  pub messages : List LogMessage
  pub members : Text → Value

-- `QcHealthDetail`, with the time as it is printed.
pub record QcHealthDetail : Type 0 where
  pub healthy : Bool
  pub updated_at : Text

-- `IqmServerQuantumComputerDetails`.
pub record Details : Type 0 where
  pub operational : Text
  pub health : Option QcHealthDetail
  pub queue_length : ℤ

-- `configuration::Configuration`.
pub record Configuration : Type 0 where
  pub base_path : Text
  pub user_agent : Option Text
  pub bearer_access_token : Option Text

-- A `GET` of the HTTP library.
pub record Request : Type 0 where
  pub url : Text
  pub user_agent : Option Text
  pub bearer : Option Text

-- The JSON library.
pub record Json (Value : Type 0) : Type 0 where
  pub null : Value
  pub from_str : Text → Result Text Value
  pub object : List (Text × Value) → Value
  pub to_string : Value → Text
  pub to_string_pretty : Value → Result Text Text
  -- a value as the details of the API's specification, and as health that may be null
  pub details : Value → Result Text Details
  pub health : Value → Result Text (Option QcHealthDetail)
  pub pointer : Value → Text → Option Value
  pub get : Value → Text → Option Value
  pub as_i64 : Value → Option ℤ

-- The generated client and the HTTP library, on a world `V`. A body is the text of its bytes.
pub record Api (V Value : Type 0) : Type 0 where
  pub default_user_agent : Option Text
  -- the error of a status
  pub printed : ℕ → Text
  pub send : Request → Exec V ApiError (ℕ × Text)
  -- the computer, the type of the job, the time slot, the tag and the job
  pub job_submit :
      Configuration → Text → Text → Option Bool → Option Text → Value → Exec V ApiError (Job Value)
  pub get_job_v1 : Configuration → Text → Option Bool → Option ℕ → Exec V ApiError (Job Value)
  pub cancel_job_v1 : Configuration → Text → Exec V ApiError (Unit {0})
  pub job_get_artifacts : Configuration → Text → Text → Exec V ApiError Text
  pub qc_get_artifacts : Configuration → Text → Text → Exec V ApiError Text
  pub get_dynamic_quantum_architecture_v1 : Configuration → Text → Text → Exec V ApiError Text
  pub get_calibration_set_v1 : Configuration → Text → Text → Exec V ApiError Text
  pub get_quality_metrics_v1 : Configuration → Text → Text → Exec V ApiError Text

pub record IqmServer : Type 0 where
  pub config : Configuration
  pub backend_name : Text
  pub calibration_set_id : Text
  pub acquisition_token : Option Text

-- There is always a first piece.
abbrev name_and_id : List Text → Text × Text
name_and_id [] = ([], [])
name_and_id (name ∷ []) = (name, codes "default")
name_and_id (name ∷ id ∷ _) = (name, id)

unfoldable pub parse_backend_and_calset : Text → Text × Text
unfolding split
parse_backend_and_calset resource_id = name_and_id (split (codes ",") resource_id)

-- With `:` in place of the last `_`, if there is one.
unfoldable pub replace_last : Text → Option Text
replace_last [] = none
replace_last (c ∷ s) = elim (replace_last s) [
  | some t ↦ some (c ∷ t)
  | none ↦ if c == b'_' then some (b':' ∷ s) else none
]

abbrev pub or_else : Text → Option Text → Text
or_else s none = s
or_else s (some t) = t

abbrev pub prefix : Text → Option Config → Text
prefix backend_name (some config) = []
prefix backend_name none = backend_name ++ codes "_"

unfoldable pub from_opt : Option Text → Env → Text → Option Config → Result QrmiError IqmServer
unfolding parse_backend_and_calset replace_last resolve_opt resolve_opt_required
from_opt user_agent env resource_id config =
    let (backend_name, calset_id) = parse_backend_and_calset resource_id in
    let p = prefix backend_name config in
    (do
      iqm_endpoint ← resolve_opt_required env (p ++ codes "QRMI_IQM_ISA_ENDPOINT") config
      iqm_token ← resolve_opt_required env (p ++ codes "QRMI_IQM_ISA_TOKEN") config
      ok (record {
        config = record {
          base_path = iqm_endpoint;
          user_agent = user_agent;
          bearer_access_token = some iqm_token;
        };
        backend_name = or_else backend_name (replace_last backend_name);
        calibration_set_id = calset_id;
        acquisition_token = resolve_opt env (p ++ codes "QRMI_JOB_ACQUISITION_TOKEN") config;
      }))
