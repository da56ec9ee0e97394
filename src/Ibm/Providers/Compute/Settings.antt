-- ===== src/Ibm/Providers/Compute/Settings.antt =====
-- The services that the provider builds find their settings in the environment
-- (src/ibm/*_provider/mod.rs, and `from_opt` of the services).
use qrmi.Prelude.{◌≡◌, refl, some, none, arith}
use qrmi.Text.{Text, codes}
use qrmi.Result.{ok}
use qrmi.Settings.{Env, resolve_opt, resolve_opt_required}
use qrmi.Ibm.Compute.State.{Service}
use qrmi.Ibm.Compute.Settings.{from_opt, key}
use qrmi.Ibm.Compute.Tasks.{Product, runtime, compute}
use qrmi.Ibm.Providers.{Environment, value_of, get, inject_backend_env}
use qrmi.Ibm.Providers.Environment.{inject_backend_env-found}
use qrmi.Ibm.Providers.Compute.{
  Provider, new, endpoint_key, iam_endpoint_key, api_key_key, service_crn_key,
}

-- The map of a provider has its four settings.
pub record HasSettings (product : Product) (self : Provider) : Type 0 where
  pub endpoint : value_of self.provider_env (codes (endpoint_key product)) ≡ some self.base_path
  pub iam : value_of self.provider_env (codes (iam_endpoint_key product)) ≡ some self.iam_endpoint
  pub apikey : value_of self.provider_env (codes (api_key_key product)) ≡ some self.api_key
  pub service_crn : value_of self.provider_env (codes (service_crn_key product)) ≡ some self.crn

pub new-HasSettings :
    (product : Product) (environment : Environment) (self : Provider)
    → new product environment ≡ ok self
    → HasSettings product self
unfolding new get
new-HasSettings product environment self h = ground arith

-- The service stands for this backend, with the provider's settings and no token yet.
pub record IsServiceOf (self : Provider) (name : Text) (s : Service) : Type 0 where
  pub backend_name : s.backend_name ≡ name
  pub base_path : s.base_path ≡ self.base_path
  pub crn : s.crn ≡ self.crn
  pub api_key : s.api_key ≡ self.api_key
  pub iam_endpoint : s.iam_endpoint ≡ self.iam_endpoint
  pub bearer : s.token.bearer ≡ none

-- A backend whose four settings are in the environment has a service.
from_opt-found :
    (product : Product) (self : Provider) (name : Text) (env : Env)
    → env (key env product name none "ENDPOINT") ≡ some self.base_path
    → env (key env product name none "IAM_ENDPOINT") ≡ some self.iam_endpoint
    → env (key env product name none "IAM_APIKEY") ≡ some self.api_key
    → env (key env product name none "SERVICE_CRN") ≡ some self.crn
    → (s : Service) × (from_opt env product name none ≡ ok s) × IsServiceOf self name s
unfolding from_opt resolve_opt resolve_opt_required
from_opt-found product self name env e i a c =
    rw (e, i, a, c)
      (
        _,
        refl,
        record {
          backend_name = refl;
          base_path = refl;
          crn = refl;
          api_key = refl;
          iam_endpoint = refl;
          bearer = refl;
        },
      )

module _ (self : Provider) (name : Text) (env : Env) where
  -- Once the map of a provider with its four settings is injected for a backend, whatever the
  -- environment held before, the backend's service is built, with the provider's settings.
  pub from_opt-inject :
      (product : Product)
      → HasSettings product self
      → (s : Service) × (from_opt (inject_backend_env name self.provider_env env) product name none
          ≡ ok s)
        × IsServiceOf self name s
  from_opt-inject runtime h =
      from_opt-found runtime self name (inject_backend_env name self.provider_env env)
        (inject_backend_env-found name self.provider_env env (codes "QRMI_IBM_QRS_ENDPOINT")
          self.base_path h.endpoint)
        (inject_backend_env-found name self.provider_env env (codes "QRMI_IBM_QRS_IAM_ENDPOINT")
          self.iam_endpoint h.iam)
        (inject_backend_env-found name self.provider_env env (codes "QRMI_IBM_QRS_IAM_APIKEY")
          self.api_key h.apikey)
        (inject_backend_env-found name self.provider_env env (codes "QRMI_IBM_QRS_SERVICE_CRN")
          self.crn h.service_crn)
  from_opt-inject compute h =
      from_opt-found compute self name (inject_backend_env name self.provider_env env)
        (inject_backend_env-found name self.provider_env env (codes "QRMI_IBM_QCS_ENDPOINT")
          self.base_path h.endpoint)
        (inject_backend_env-found name self.provider_env env (codes "QRMI_IBM_QCS_IAM_ENDPOINT")
          self.iam_endpoint h.iam)
        (inject_backend_env-found name self.provider_env env (codes "QRMI_IBM_QCS_IAM_APIKEY")
          self.api_key h.apikey)
        (inject_backend_env-found name self.provider_env env (codes "QRMI_IBM_QCS_SERVICE_CRN")
          self.crn h.service_crn)
