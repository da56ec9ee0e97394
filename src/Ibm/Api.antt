-- ===== src/Ibm/Api.antt =====
-- The clients of the Qiskit Runtime Service and of the Quantum Compute Service, one interface
-- (dependencies/quantum_compute_client), and how their errors are told apart (src/ibm/error.rs).
use qrmi.Prelude.{ℕ, Bool, Option, List, [], ◌∷◌, if◌then◌else◌, ◌==◌}
use qrmi.Prelude.Int.{ℤ}
use qrmi.Text.{Text, codes}
use qrmi.Result.{Result}
use qrmi.Exec.{Exec}
use qrmi.Errors.{QrmiError, text, status_line}

-- `ResponseError`: the number of the status and the body; every other error has no status.
pub data ApiError : Type 0 where
  response_error : ℕ → Text → ApiError
  transport : Text → ApiError

pub data ResourceKind : Type 0 where
  backend job session : ResourceKind

abbrev pub not_found : Text → ℕ → ResourceKind → QrmiError
not_found body status backend = QrmiError.resource_not_found body
not_found body status job = QrmiError.task_not_found body
not_found body status session =
    QrmiError.other
      (text (codes "response body: ") ∷ status_line status ∷ text (codes " ") ∷ text body ∷ [])

unfoldable pub classify : ResourceKind → ApiError → QrmiError
classify resource_kind (response_error status body) =
    if status == 400
    then QrmiError.invalid_input (text body ∷ [])
    else if status == 401
    then QrmiError.authentication_failed body
    else if status == 404
    then not_found body status resource_kind
    else not_found body status session
classify resource_kind (transport message) = QrmiError.other (text message ∷ [])

-- dependencies/quantum_compute_client/src/models
pub data JobStatus : Type 0 where
  queued running completed cancelled cancelled_ran_too_long failed : JobStatus

pub data SessionState : Type 0 where
  «open» active inactive closed : SessionState

pub data Mode : Type 0 where
  batch dedicated : Mode

pub data DeviceName : Type 0 where
  online offline paused : DeviceName

pub record Job : Type 0 where
  pub status : JobStatus
  pub session_id : Option Text

pub record Session : Type 0 where
  pub id : Text
  pub state : Option SessionState
  pub mode : Mode
  pub active_ttl : Option ℤ
  pub max_ttl : Option ℤ

pub record Device : Type 0 where
  pub name : Text
  pub status : DeviceName
  pub reason : Option Text
  pub queue_length : ℤ
  pub is_simulator : Option Bool

-- The arguments of `list_jobs` that the code gives.
pub record JobsQuery : Type 0 where
  pub version : Option Text
  pub limit : Option ℕ
  pub offset : Option ℕ
  pub pending : Option Bool
  pub backend : Option Text
  pub sort : Option Text
  pub session_id : Option Text
  pub exclude_params : Option Bool

pub record CreateSession : Type 0 where
  pub max_ttl : ℤ
  pub mode : Mode
  pub backend : Text
  pub backend_name : Text

-- The fields of a job's request that are not constant.
pub record CreateJob (Params : Type 0) : Type 0 where
  pub program_id : Text
  pub backend : Text
  pub cost : Option ℤ
  pub session_id : Option Text
  pub calibration_id : Option Text
  pub params : Params

-- What every call sends along.
pub record Configuration : Type 0 where
  pub base_path : Text
  pub crn : Text
  pub bearer_access_token : Option Text

pub data Primitive : Type 0 where
  sampler estimator noiselearner : Primitive

-- The world `V` holds the services and the clock. A `Value` is a parsed JSON value, `Params` are the
-- parameters of a job, and a `Document` is a parsed response that is only printed again.
pub record Api (V Value Params Document : Type 0) : Type 0 where
  pub current_unix_timestamp : V → ℕ × V
  -- the API key and the endpoint; the token, its expiration and its lifetime
  pub fetch_access_token : Text → Text → Exec V Text (Text × ℕ × ℕ)
  pub list_jobs : Configuration → JobsQuery → Exec V ApiError (Option (List Job))
  pub get_job : Configuration → Text → Exec V ApiError Job
  pub create_job : Configuration → CreateJob Params → Exec V ApiError Text
  pub cancel_job_jid : Configuration → Text → Exec V ApiError (Unit {0})
  pub get_job_results_jid : Configuration → Text → Exec V ApiError Text
  pub get_job_logs_jid : Configuration → Text → Exec V ApiError Text
  -- the session and the version of the API
  pub get_session : Configuration → Text → Option Text → Exec V ApiError Session
  pub create_session : Configuration → CreateSession → Exec V ApiError Session
  -- the session, and whether it goes on accepting jobs
  pub update_session : Configuration → Text → Bool → Exec V ApiError (Unit {0})
  pub delete_session_close : Configuration → Text → Exec V ApiError (Unit {0})
  pub list_backends : Configuration → Option Text → Exec V ApiError (Option (List Device))
  pub get_backend_status : Configuration → Text → Exec V ApiError (Option Text)
  pub get_backend_configuration : Configuration → Text → Exec V ApiError Document
  pub get_backend_properties : Configuration → Text → Option Text → Exec V ApiError Document
  -- `serde_json`
  pub from_str : Text → Result Text Value
  pub from_value : Primitive → Value → Result Text Params
  pub executor_input : Value → Params
  pub to_value : Document → Result Text Value
  -- the text of an object with the members `configuration` and `properties`, null for `none`
  pub print_target : Option Value → Option Value → Text
