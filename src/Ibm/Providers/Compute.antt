-- ===== src/Ibm/Providers/Compute.antt =====
-- The providers of Qiskit Runtime Service and of Quantum Compute Service
-- (src/ibm/qiskit_runtime_service_provider, src/ibm/quantum_compute_service_provider), whose code
-- differs in the names of the settings.
pub mod Settings
pub mod Listing
pub mod LeastBusy
use qrmi.Prelude.{
  Option, none, some, List, [], ◌∷◌, ◌++◌, if◌then◌else◌, String, Bool, true, false, unwrap_or,
}
use qrmi.Prelude.Sort.{filter, sort_by_key}
use qrmi.Prelude.Int.{ℤ}
use qrmi.Text.{Text, codes}
use qrmi.Result.{Result, ok, err, ◌>>=◌}
use qrmi.Exec.{Exec}
use qrmi.Errors.{QrmiError, plain}
use qrmi.Settings.{Env}
use qrmi.Ibm.Api.{Api, ApiError, Configuration, Device}
use qrmi.Ibm.Filter.{
  BackendFilter, BackendConfiguration, parse_runtime, parse_compute, matches_name, matches_device,
  matches_config, needs_status_check, is_online_status,
}
use qrmi.Ibm.Compute.State.{Service, Token, check_token}
use qrmi.Ibm.Compute.Settings.{from_opt}
use qrmi.Ibm.Compute.Tasks.{Product, runtime, compute}
use qrmi.Ibm.Providers.{Environment, get, inject_backend_env, join_all, zip}

-- `IBMQiskitRuntimeServiceProvider` and `IBMQuantumComputeServiceProvider`; the first two fields are
-- those of its `config`.
pub record Provider : Type 0 where
  pub base_path : Text
  pub crn : Text
  pub api_key : Text
  pub iam_endpoint : Text
  pub provider_env : Environment

abbrev pub endpoint_key : Product → String
endpoint_key runtime = "QRMI_IBM_QRS_ENDPOINT"
endpoint_key compute = "QRMI_IBM_QCS_ENDPOINT"

abbrev pub iam_endpoint_key : Product → String
iam_endpoint_key runtime = "QRMI_IBM_QRS_IAM_ENDPOINT"
iam_endpoint_key compute = "QRMI_IBM_QCS_IAM_ENDPOINT"

abbrev pub api_key_key : Product → String
api_key_key runtime = "QRMI_IBM_QRS_IAM_APIKEY"
api_key_key compute = "QRMI_IBM_QCS_IAM_APIKEY"

abbrev pub service_crn_key : Product → String
service_crn_key runtime = "QRMI_IBM_QRS_SERVICE_CRN"
service_crn_key compute = "QRMI_IBM_QCS_SERVICE_CRN"

unfoldable pub new : Product → Environment → Result QrmiError Provider
unfolding get
new product environment = do
  endpoint ← get environment (endpoint_key product)
  iam_endpoint ← get environment (iam_endpoint_key product)
  api_key ← get environment (api_key_key product)
  service_crn ← get environment (service_crn_key product)
  ok (record {
    base_path = endpoint;
    crn = service_crn;
    api_key = api_key;
    iam_endpoint = iam_endpoint;
    provider_env = environment;
  })

-- A configuration with the token of a renewal, if one was made.
abbrev pub with_bearer : Provider → Token → Configuration
with_bearer self token = record {
  base_path = self.base_path;
  crn = self.crn;
  bearer_access_token = token.bearer;
}

abbrev pub no_token : Token
no_token = record { bearer = none; expiration = 0; lifetime = 0 }

abbrev pub counts_as_online : Result ApiError (Option Text) → Bool
counts_as_online (ok (some status)) = is_online_status status
counts_as_online (ok none) = false
counts_as_online (err e) = false

-- `candidates.into_iter().zip(results).filter_map(..)`.
abbrev pub answered : List (Device × Bool) → List Device
answered [] = []
answered ((d, online) ∷ rest) = if online then d ∷ answered rest else answered rest

-- The end of the closure: a device whose service cannot be built is passed over.
abbrev pub kept : Result QrmiError Service → List Service → List Service
kept (ok service) services = service ∷ services
kept (err e) services = services

abbrev pub with_service : Result QrmiError Service → List Service × Env → List Service × Env
with_service r (services, env) = (kept r services, env)

abbrev pub first : List Service → Option Service
first [] = none
first (s ∷ rest) = some s

abbrev pub online_of : {V : Type 0} → List Device → List Bool × V → List Device × V
online_of candidates (results, v) = (answered (zip candidates results), v)

abbrev pub first_of :
    {V : Type 0}
    → Result QrmiError (List Service) × (Env × V)
    → Result QrmiError (Option Service) × (Env × V)
first_of (ok services, s) = (ok (first services), s)
first_of (err e, s) = (err e, s)

module _ {Document Pattern : Type 0} (read : Document → Option BackendConfiguration) where
  -- Whether the configuration of a device was fetched, can be read and meets the filter.
  abbrev pub fits : BackendFilter Pattern → Option BackendConfiguration → Bool
  fits f none = false
  fits f (some config) = matches_config f config

  abbrev pub accepted : BackendFilter Pattern → Result ApiError Document → Bool
  accepted f (ok raw) = fits f (read raw)
  accepted f (err e) = false

  -- The closure of `filter_map`, over all devices with what was fetched for them; it changes the
  -- environment of the process, and the service is built from that.
  unfoldable pub construct :
      Product
      → Environment
      → BackendFilter Pattern
      → List (Device × Result ApiError Document)
      → Env
      → List Service × Env
  unfolding inject_backend_env from_opt matches_config
  construct product provider_env f [] env = ([], env)
  construct product provider_env f ((d, config_result) ∷ rest) env =
      let env' = inject_backend_env d.name provider_env env in
      let built =
        with_service (from_opt env' product d.name none)
          (construct product provider_env f rest env') in
      let passed = construct product provider_env f rest env in
      if accepted f config_result then built else passed

-- The two filters on the list of the devices.
abbrev pub listed :
    {Pattern : Type 0} → (Pattern → Text → Bool) → BackendFilter Pattern → List Device → List Device
listed matches f devices =
    filter (λ d. matches_name matches f d.name)
      (filter (λ d. matches_device f d.is_simulator) devices)

-- `glob` and `matches` are `Pattern::new` and `Pattern::matches` of the crate `glob`, and `read` is
-- `serde_json::from_value` on the JSON value of a response.
module _ {V Value Params Document Pattern : Type 0} (api : Api V Value Params Document)
    (glob : Text → Result Text Pattern) (matches : Pattern → Text → Bool)
    (read : Document → Option BackendConfiguration) where
  abbrev pub parse : Product → Text → Result QrmiError (BackendFilter Pattern)
  parse runtime filters = parse_runtime glob filters
  parse compute filters = parse_compute glob filters

  unfoldable pub is_backend_online : Configuration → Device → V → Bool × V
  unfolding is_online_status
  is_backend_online config d v =
      let (r, v') = api.get_backend_status config d.name v in (counts_as_online r, v')

  unfoldable pub status_filter :
      BackendFilter Pattern → Configuration → List Device → V → List Device × V
  unfolding needs_status_check join_all is_backend_online
  status_filter f config candidates v =
      if needs_status_check f
      then online_of candidates (join_all (is_backend_online config) candidates v)
      else (candidates, v)

  abbrev pub sorted :
      List Device
      → List (Result ApiError Document) × V
      → List (Device × Result ApiError Document) × V
  sorted candidates (configs, v) = (
    sort_by_key (λ (p : Device × Result ApiError Document). p.0.queue_length)
        (zip candidates configs),
    v,
  )

  abbrev pub fetch_configs :
      Configuration → List Device × V → List (Device × Result ApiError Document) × V
  fetch_configs config (candidates, v) =
      sorted candidates (join_all (λ d. api.get_backend_configuration config d.name) candidates v)

  abbrev pub constructed :
      Product
      → Provider
      → BackendFilter Pattern
      → Env
      → List (Device × Result ApiError Document) × V
      → Result QrmiError (List Service) × (Env × V)
  constructed product self f env (candidates, v) =
      let (services, env') = construct read product self.provider_env f candidates env in
      (ok services, (env', v))

  abbrev pub answer_list :
      Product
      → Provider
      → BackendFilter Pattern
      → Configuration
      → Env
      → Result ApiError (Option (List Device)) × V
      → Result QrmiError (List Service) × (Env × V)
  answer_list product self f config env (err e, v) =
      (err (QrmiError.other (plain "failed to list backends")), (env, v))
  answer_list product self f config env (ok devices, v) =
      constructed product self f env
        (fetch_configs config (status_filter f config (listed matches f (unwrap_or devices [])) v))

  abbrev pub with_list :
      Product
      → Provider
      → BackendFilter Pattern
      → Env
      → Result Text (Unit {0}) × (Token × V)
      → Result QrmiError (List Service) × (Env × V)
  with_list product self f env (err e, (token, v)) =
      (err (QrmiError.other (plain "token renewal failed")), (env, v))
  with_list product self f env (ok u, (token, v)) =
      answer_list product self f (with_bearer self token) env
        (api.list_backends (with_bearer self token) (some (codes "2025-01-01")) v)

  abbrev pub filtered :
      Product
      → Provider
      → Result QrmiError (BackendFilter Pattern)
      → Exec (Env × V) QrmiError (List Service)
  filtered product self (err e) (env, v) = (err e, (env, v))
  filtered product self (ok f) (env, v) =
      with_list product self f env (check_token api self.api_key self.iam_endpoint (no_token, v))

  -- `resources`, in the process's environment and the world of the services.
  unfoldable pub resources :
      Product → Provider → Option Text → Exec (Env × V) QrmiError (List Service)
  unfolding check_token parse_runtime parse_compute status_filter construct sort_by_key join_all
  resources product self filters = filtered product self (parse product (unwrap_or filters []))

  -- `least_busy` of the trait `ResourceProvider` (src/resource_provider.rs).
  unfoldable pub least_busy :
      Product → Provider → Option Text → Exec (Env × V) QrmiError (Option Service)
  unfolding resources
  least_busy product self filters s = first_of (resources product self filters s)
