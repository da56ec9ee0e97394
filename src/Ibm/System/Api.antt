-- ===== src/Ibm/System/Api.antt =====
-- The client of the Quantum System API (dependencies/quantum_system_client), and its errors
-- (src/ibm/error.rs).
use qrmi.Prelude.{ℕ, Bool, Option, none, some, List, [], ◌∷◌, if◌then◌else◌}
use qrmi.Text.{Text, codes, eq_text}
use qrmi.Result.{Result}
use qrmi.Exec.{Exec}
use qrmi.Errors.{QrmiError, text}

-- The conditions that the code tells apart, each with its message.
pub data SystemError : Type 0 where
  backend_not_found job_not_found authentication_failed invalid_job_input : Text → SystemError
  other_error : Text → SystemError

-- `From<QuantumSystemError> for QrmiError`.
unfoldable pub from_error : SystemError → QrmiError
from_error (backend_not_found msg) = QrmiError.resource_not_found msg
from_error (job_not_found msg) = QrmiError.task_not_found msg
from_error (authentication_failed msg) = QrmiError.authentication_failed msg
from_error (invalid_job_input msg) = QrmiError.invalid_input (text msg ∷ [])
from_error (other_error msg) = QrmiError.other (text msg ∷ [])

pub data ProgramId : Type 0 where
  estimator sampler executor : ProgramId

-- `ProgramId::from_str`.
unfoldable pub program_of : Text → Option ProgramId
unfolding eq_text
program_of s =
    if eq_text s (codes "estimator")
    then some estimator
    else if eq_text s (codes "sampler")
    then some sampler
    else if eq_text s (codes "executor")
    then some executor
    else none

pub data SystemJobStatus : Type 0 where
  running completed failed cancelled : SystemJobStatus

pub data BackendStatus : Type 0 where
  online offline paused : BackendStatus

pub record Backend : Type 0 where
  pub status : BackendStatus
  pub locked : Option Bool

-- An entry of the list of backends.
pub record ListedBackend : Type 0 where
  pub name : Text
  pub status : BackendStatus

pub record SystemJob : Type 0 where
  pub backend : Text
  pub status : SystemJobStatus

-- The reason's code is already the text that `to_string` gives.
pub record JobDetails : Type 0 where
  pub status : SystemJobStatus
  pub reason_code : Option Text
  pub reason_message : Option Text
  pub reason_solution : Option Text

pub record S3Env : Type 0 where
  pub bucket : Text
  pub endpoint : Text
  pub access_key_id : Text
  pub secret_access_key : Text
  pub region : Text

-- What a client is built from; the timeout and the retry policy are constants.
pub record Connection : Type 0 where
  pub endpoint : Text
  pub apikey : Text
  pub service_crn : Text
  pub iam_endpoint_url : Text
  pub s3 : Option S3Env
  pub s3_endpoint_for_daapi : Option Text

pub record Request (Value : Type 0) : Type 0 where
  pub backend : Text
  pub program_id : ProgramId
  pub timeout_secs : ℕ
  pub job_input : Value

-- `V` is the world of the services.
pub record SystemApi (V Client Value : Type 0) : Type 0 where
  pub build : Connection → Result SystemError Client
  -- the same builder with no timeout, no retry policy and no bucket
  pub build_plain : Text → Text → Text → Text → Result SystemError Client
  pub list_backends : Client → Exec V SystemError (List ListedBackend)
  pub get_backend : Client → Text → Exec V SystemError Backend
  -- the number of lanes of the workload manager
  pub get_backend_lanes_configuration : Client → Text → Exec V SystemError ℕ
  pub list_jobs : Client → Exec V SystemError (List SystemJob)
  pub run_primitive : Client → Request Value → Exec V SystemError Text
  pub get_job_status : Client → Text → Exec V SystemError SystemJobStatus
  pub cancel_job : Client → Text → Bool → Exec V SystemError (Unit {0})
  pub delete_job : Client → Text → Exec V SystemError (Unit {0})
  pub get_job : Client → Text → Exec V SystemError JobDetails
  pub get_backend_configuration : Client → Text → Exec V SystemError Value
  pub get_backend_properties : Client → Text → Exec V SystemError Value
  -- the bytes of an object of the bucket
  pub get_object : S3Env → Text → Exec V SystemError (List ℕ)
  -- `String::from_utf8` and `serde_json`
  pub from_utf8 : List ℕ → Result Text Text
  pub from_str : Text → Result Text Value
  -- the text of an object with the members `configuration` and `properties`
  pub print_target : Value → Value → Text
