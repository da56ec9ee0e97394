-- ===== src/Ibm/System/Storage.antt =====
-- The bucket of a system, when it is built and later (src/ibm/quantum_system.rs).
use qrmi.Prelude.{◌≡◌, ap, Option, inl, inr}
use qrmi.Text.{Text}
use qrmi.Result.{Result, ok, step-ok, Result-cases}
use qrmi.Errors.{QrmiError}
use qrmi.Settings.{Env}
use qrmi.Ibm.System.Api.{SystemApi, S3Env}
use qrmi.Ibm.System.{
  Settings, System, require, s3_env, opened_s3, from_settings, store_of, s3_store, system_of,
  connected,
}

abbrev s3_of : {Client : Type 0} → System Client → Option S3Env
s3_of self = self.s3

abbrev settings_of_system : {Client : Type 0} → System Client → Settings
settings_of_system self = self.settings

abbrev built : {Client : Type 0} → System Client → Result QrmiError (System Client)
built self = ok self

ok_injective : {Client : Type 0} {a b : System Client} → built a ≡ built b → b ≡ a
ok_injective h = cc

module _ {V Client Value : Type 0} (api : SystemApi V Client Value) (env : Env) where
  store_of-opened :
      (backend_name : Text) (settings : Settings)
      → store_of api env backend_name settings (opened_s3 (s3_env env settings))
        ≡ s3_env env settings
  store_of-opened backend_name settings = elim (Result-cases (s3_env env settings)) [
    | inl (s3, e) ↦ rw e
    | inr (x, e) ↦ rw e (rw e)
  ]

  built-s3 :
      (resource_id : Text) (settings : Settings) (self : System Client)
      → from_settings api env resource_id settings ≡ ok self
      → (self.s3 ≡ opened_s3 (s3_env env settings)) × (self.settings ≡ settings)
  unfolding from_settings
  built-s3 resource_id settings self h =
      let (endpoint, e0, h0) = step-ok self _ (require env settings "QRMI_IBM_QS_ENDPOINT") h in
      let (apikey, e1, h1) = step-ok self _ (require env settings "QRMI_IBM_QS_IAM_APIKEY") h0 in
      let (crn, e2, h2) = step-ok self _ (require env settings "QRMI_IBM_QS_SERVICE_CRN") h1 in
      let (iam, e3, h3) = step-ok self _ (require env settings "QRMI_IBM_QS_IAM_ENDPOINT") h2 in
      let (client, e4, h4) =
        step-ok self (λ client. built (system_of env resource_id settings client))
          (connected api env settings endpoint apikey crn iam) h3 in
      let same : self ≡ system_of env resource_id settings client = ok_injective h4 in
      (ap s3_of same, ap settings_of_system same)

  -- As long as the environment stays as it was, the methods that need the bucket of a system find
  -- the one that its settings name, or the error of the first setting that is missing; the error
  -- that the bucket was not configured is never met.
  pub s3_store-s3_env :
      (resource_id : Text) (settings : Settings) (self : System Client)
      → from_settings api env resource_id settings ≡ ok self
      → s3_store api env self ≡ s3_env env settings
  unfolding s3_store
  s3_store-s3_env resource_id settings self h =
      let (e, f) = built-s3 resource_id settings self h in
      rw (e, f) (store_of-opened self.backend_name settings)
