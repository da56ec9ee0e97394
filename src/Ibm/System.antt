-- ===== src/Ibm/System.antt =====
-- IBM Quantum System (src/ibm/quantum_system.rs): its settings, its task methods and its status.
pub mod Api
pub mod Storage
pub mod Tasks
pub mod Http
use qrmi.Prelude.{
  ℕ, ◌-◌, Bool, true, false, ◌&&◌, Option, none, some, List, [], ◌∷◌, ◌++◌, String, unwrap_or,
  length, if◌then◌else◌,
}
use qrmi.Text.{Text, codes, eq_text, parse_u64}
use qrmi.Result.{Result, ok, err, ◌>>=◌, map_err}
use qrmi.Errors.{QrmiError, unknown_program_id, text, plain}
use qrmi.Models.{Payload, TaskStatus, ResourceStatus, ResourceStatusCode, qiskit_primitive}
use qrmi.Settings.{Env, Config, resolve_opt, resolve_opt_required}
use qrmi.Ibm.System.Api.{
  SystemApi, SystemError, from_error, S3Env, Connection, Request, SystemJob, SystemJobStatus,
  BackendStatus, ProgramId, program_of, JobDetails,
}

-- `Settings`, without the environment itself.
pub record Settings : Type 0 where
  pub prefix : Text
  pub config : Option Config

-- `Settings::env` and `Settings::map`.
abbrev pub settings_of : Text → Option Config → Settings
settings_of resource_id none = record { prefix = resource_id ++ codes "_"; config = none }
settings_of resource_id (some config) = record { prefix = []; config = some config }

-- `IBMQuantumSystem`.
pub record System (Client : Type 0) : Type 0 where
  pub api_client : Client
  pub backend_name : Text
  pub settings : Settings
  pub s3 : Option S3Env

module _ (env : Env) (settings : Settings) where
  abbrev pub key : String → Text
  key name = settings.prefix ++ codes name

  abbrev pub get_setting : String → Option Text
  get_setting name = resolve_opt env (key name) settings.config

  unfoldable pub require : String → Result QrmiError Text
  unfolding resolve_opt_required
  require name = resolve_opt_required env (key name) settings.config

  unfoldable pub s3_env : Result QrmiError S3Env
  unfolding require
  s3_env = do
    bucket ← require "QRMI_IBM_QS_S3_BUCKET"
    endpoint ← require "QRMI_IBM_QS_S3_ENDPOINT"
    access_key_id ← require "QRMI_IBM_QS_AWS_ACCESS_KEY_ID"
    secret_access_key ← require "QRMI_IBM_QS_AWS_SECRET_ACCESS_KEY"
    region ← require "QRMI_IBM_QS_S3_REGION"
    ok (record {
      bucket = bucket;
      endpoint = endpoint;
      access_key_id = access_key_id;
      secret_access_key = secret_access_key;
      region = region;
    })

abbrev pub opened_s3 : Result QrmiError S3Env → Option S3Env
opened_s3 (ok s3) = some s3
opened_s3 (err e) = none

abbrev pub system_of : {Client : Type 0} → Env → Text → Settings → Client → System Client
system_of env resource_id settings client = record {
  api_client = client;
  backend_name = resource_id;
  settings = settings;
  s3 = opened_s3 (s3_env env settings);
}

module _ {V Client Value : Type 0} (api : SystemApi V Client Value) (env : Env) where
  abbrev pub connected : Settings → Text → Text → Text → Text → Result QrmiError Client
  connected settings daapi_endpoint apikey service_crn iam_endpoint_url = map_err from_error (
      api.build (record {
        endpoint = daapi_endpoint;
        apikey = apikey;
        service_crn = service_crn;
        iam_endpoint_url = iam_endpoint_url;
        s3 = opened_s3 (s3_env env settings);
        s3_endpoint_for_daapi = get_setting env settings "QRMI_IBM_QS_S3_ENDPOINT_FOR_QSAPI";
      }))

  -- Without the settings of a bucket a system is built all the same.
  unfoldable pub from_settings : Text → Settings → Result QrmiError (System Client)
  unfolding require s3_env from_error
  from_settings resource_id settings = do
    daapi_endpoint ← require env settings "QRMI_IBM_QS_ENDPOINT"
    apikey ← require env settings "QRMI_IBM_QS_IAM_APIKEY"
    service_crn ← require env settings "QRMI_IBM_QS_SERVICE_CRN"
    iam_endpoint_url ← require env settings "QRMI_IBM_QS_IAM_ENDPOINT"
    client ← connected settings daapi_endpoint apikey service_crn iam_endpoint_url
    ok (system_of env resource_id settings client)

  abbrev pub missing_s3 : Text → Result QrmiError S3Env → Result QrmiError S3Env
  missing_s3 backend_name (ok s3) = err (
      QrmiError.invalid_config (
        text (codes "S3 bucket was not configured when '")
        ∷ text backend_name
        ∷ text (codes "' was created")
        ∷ []))
  missing_s3 backend_name (err e) = err e

  abbrev pub store_of : Text → Settings → Option S3Env → Result QrmiError S3Env
  store_of backend_name settings (some s3) = ok s3
  store_of backend_name settings none = missing_s3 backend_name (s3_env env settings)

  unfoldable pub s3_store : System Client → Result QrmiError S3Env
  unfolding s3_env
  s3_store self = store_of self.backend_name self.settings self.s3
