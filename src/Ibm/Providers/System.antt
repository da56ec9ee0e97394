-- ===== src/Ibm/Providers/System.antt =====
-- The provider of IBM Quantum System (src/ibm/quantum_system_provider).
pub mod Listing
use qrmi.Prelude.{
  Option, none, some, List, [], ◌∷◌, if◌then◌else◌, Bool, true, false, unwrap_or, map,
}
use qrmi.Prelude.Sort.{filter}
use qrmi.Text.{Text}
use qrmi.Result.{Result, ok, err, ◌>>=◌, map_err}
use qrmi.Exec.{Exec}
use qrmi.Errors.{QrmiError}
use qrmi.Settings.{Env}
use qrmi.Ibm.Filter.{
  BackendFilter, BackendConfiguration, parse_system, matches_name, matches_config, matches_status,
}
use qrmi.Ibm.System.Api.{SystemApi, SystemError, from_error, ListedBackend, BackendStatus}
use qrmi.Ibm.System.{System, settings_of, from_settings}
use qrmi.Ibm.Providers.{Environment, get, inject_backend_env, join_all, zip}

-- `IBMQuantumSystemProvider`.
pub record Provider (Client : Type 0) : Type 0 where
  pub client : Client
  pub provider_env : Environment

-- `BackendStatus::Online`.
abbrev pub is_online : BackendStatus → Bool
is_online BackendStatus.online = true
is_online BackendStatus.offline = false
is_online BackendStatus.paused = false

abbrev pub kept :
    {Client : Type 0}
    → Result QrmiError (System Client)
    → List (System Client)
    → List (System Client)
kept (ok system) systems = system ∷ systems
kept (err e) systems = systems

-- The names of the backends that pass the filters on the list.
abbrev pub candidates :
    {Pattern : Type 0}
    → (Pattern → Text → Bool)
    → BackendFilter Pattern
    → List ListedBackend
    → List Text
candidates matches f backends =
    map (λ (b : ListedBackend). b.name)
      (filter (λ b. matches_name matches f b.name)
        (filter (λ b. matches_status f (is_online b.status)) backends))

module _ {V Client Value Pattern : Type 0} (api : SystemApi V Client Value)
    (glob : Text → Result Text Pattern) (matches : Pattern → Text → Bool)
    (read : Value → Option BackendConfiguration) where
  unfoldable pub new : Environment → Result QrmiError (Provider Client)
  unfolding get from_error
  new environment = do
    endpoint ← get environment "QRMI_IBM_QS_ENDPOINT"
    apikey ← get environment "QRMI_IBM_QS_IAM_APIKEY"
    service_crn ← get environment "QRMI_IBM_QS_SERVICE_CRN"
    iam_endpoint_url ← get environment "QRMI_IBM_QS_IAM_ENDPOINT"
    client ← map_err from_error (api.build_plain endpoint apikey service_crn iam_endpoint_url)
    ok (record { client = client; provider_env = environment })

  abbrev pub fits : BackendFilter Pattern → Option BackendConfiguration → Bool
  fits f none = false
  fits f (some config) = matches_config f config

  abbrev pub accepted : BackendFilter Pattern → Result SystemError Value → Bool
  accepted f (ok raw) = fits f (read raw)
  accepted f (err e) = false

  abbrev pub with_system :
      Result QrmiError (System Client) → List (System Client) × Env → List (System Client) × Env
  with_system r (systems, env) = (kept r systems, env)

  -- The closure of `filter_map`, over all names with what was fetched for them.
  unfoldable pub construct :
      Environment
      → BackendFilter Pattern
      → List (Text × Result SystemError Value)
      → Env
      → List (System Client) × Env
  unfolding inject_backend_env from_settings matches_config
  construct provider_env f [] env = ([], env)
  construct provider_env f ((name, config_result) ∷ rest) env =
      let env' = inject_backend_env name provider_env env in
      let built =
        with_system (from_settings api env' name (settings_of name none))
          (construct provider_env f rest env') in
      let passed = construct provider_env f rest env in
      if accepted f config_result then built else passed

  abbrev pub constructed :
      Provider Client
      → BackendFilter Pattern
      → Env
      → List Text
      → List (Result SystemError Value) × V
      → Result QrmiError (List (System Client)) × (Env × V)
  constructed self f env names (configs, v) =
      let (systems, env') = construct self.provider_env f (zip names configs) env in
      (ok systems, (env', v))

  abbrev pub answer_list :
      Provider Client
      → BackendFilter Pattern
      → Env
      → Result SystemError (List ListedBackend) × V
      → Result QrmiError (List (System Client)) × (Env × V)
  answer_list self f env (err e, v) = (err (from_error e), (env, v))
  answer_list self f env (ok backends, v) =
      let names = candidates matches f backends in
      constructed self f env names (join_all (api.get_backend_configuration self.client) names v)

  abbrev pub filtered :
      Provider Client
      → Result QrmiError (BackendFilter Pattern)
      → Exec (Env × V) QrmiError (List (System Client))
  filtered self (err e) (env, v) = (err e, (env, v))
  filtered self (ok f) (env, v) = answer_list self f env (api.list_backends self.client v)

  -- `resources`, in the process's environment and the world of the services.
  unfoldable pub resources :
      Provider Client → Option Text → Exec (Env × V) QrmiError (List (System Client))
  unfolding parse_system construct join_all from_error
  resources self filters = filtered self (parse_system glob (unwrap_or filters []))
