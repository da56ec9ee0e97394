-- ===== src/Ibm/Compute/Settings.antt =====
-- `from_opt`: a service from a map or from the environment.
pub mod Required
use qrmi.Prelude.{Option, none, some, or_option, unwrap_or, ◌++◌, and_then, String}
use qrmi.Prelude.Int.{pos}
use qrmi.Text.{Text, codes, parse_i32}
use qrmi.Result.{Result, ok, ◌>>=◌}
use qrmi.Errors.{QrmiError}
use qrmi.Settings.{Env, Config, resolve_opt, resolve_opt_required}
use qrmi.Ibm.Compute.State.{Service}
use qrmi.Ibm.Compute.Tasks.{Product, runtime, compute}

-- The keys of a map stand without the name of the backend.
abbrev pub prefix : Text → Option Config → Text
prefix backend_name (some config) = codes ""
prefix backend_name none = backend_name ++ codes "_"

abbrev pub product_key : Product → Text
product_key runtime = codes "QRMI_IBM_QRS_"
product_key compute = codes "QRMI_IBM_QCS_"

module _ (env : Env) (product : Product) (backend_name : Text) (config : Option Config) where
  abbrev pub key : String → Text
  key name = prefix backend_name config ++ (product_key product ++ codes name)

  abbrev pub job_key : String → Text
  job_key name = prefix backend_name config ++ codes name

  unfoldable pub from_opt : Result QrmiError Service
  unfolding resolve_opt resolve_opt_required parse_i32
  from_opt = do
    endpoint ← resolve_opt_required env (key "ENDPOINT") config
    iam_endpoint ← resolve_opt_required env (key "IAM_ENDPOINT") config
    api_key ← resolve_opt_required env (key "IAM_APIKEY") config
    service_crn ← resolve_opt_required env (key "SERVICE_CRN") config
    ok (record {
      base_path = endpoint;
      crn = service_crn;
      backend_name = backend_name;
      session_id =
          or_option (resolve_opt env (key "SESSION_ID") config)
            (resolve_opt env (job_key "QRMI_JOB_ACQUISITION_TOKEN") config);
      calibration_id = none;
      timeout_secs =
          and_then
            (or_option (resolve_opt env (key "TIMEOUT_SECONDS") config)
              (resolve_opt env (job_key "QRMI_JOB_TIMEOUT_SECONDS") config))
            parse_i32;
      session_mode = unwrap_or (resolve_opt env (key "SESSION_MODE") config) (codes "dedicated");
      session_max_ttl =
          unwrap_or (and_then (resolve_opt env (key "SESSION_MAX_TTL") config) parse_i32)
            (pos 28800);
      api_key = api_key;
      iam_endpoint = iam_endpoint;
      token = record { bearer = none; expiration = 0; lifetime = 0 };
    })
