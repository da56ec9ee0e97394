-- ===== src/Ibm/Compute/State.antt =====
-- The fields of a service and the renewal of its token.
pub mod Freshness
use qrmi.Prelude.{ℕ, ◌+◌, ◌/◌, ◌%◌, ◌^◌, Option, some, ltb, if◌then◌else◌}
use qrmi.Prelude.Int.{ℤ}
use qrmi.Text.{Text}
use qrmi.Result.{Result, ok, err, map_err}
use qrmi.Exec.{Exec}
use qrmi.Errors.{QrmiError}
use qrmi.Ibm.Api.{Api, ApiError, ResourceKind, classify, Configuration}

-- `config.bearer_access_token`, `token_expiration` and `token_lifetime`.
pub record Token : Type 0 where
  pub bearer : Option Text
  pub expiration : ℕ
  pub lifetime : ℕ

-- `IBMQiskitRuntimeService` and `IBMQuantumComputeService`.
pub record Service : Type 0 where
  pub base_path : Text
  pub crn : Text
  pub backend_name : Text
  pub session_id : Option Text
  pub calibration_id : Option Text
  pub timeout_secs : Option ℤ
  pub session_mode : Text
  pub session_max_ttl : ℤ
  pub api_key : Text
  pub iam_endpoint : Text
  pub token : Token

abbrev pub configuration : Service → Configuration
configuration self = record {
  base_path = self.base_path;
  crn = self.crn;
  bearer_access_token = self.token.bearer;
}

abbrev pub max : ℕ → ℕ → ℕ
max a b = if ltb a b then b else a

module _ {V Value Params Document : Type 0} (api : Api V Value Params Document) where
  abbrev pub fetched : Token → Result Text (Text × ℕ × ℕ) × V → Result Text (Unit {0}) × (Token × V)
  fetched token (ok (bearer, expiration, lifetime), v) =
      (ok tt, (record { bearer = some bearer; expiration = expiration; lifetime = lifetime }, v))
  fetched token (err e, v) = (err e, (token, v))

  abbrev pub checked : Text → Text → Token → ℕ × V → Result Text (Unit {0}) × (Token × V)
  checked api_key iam_endpoint token (now, v) =
      if ltb token.expiration ((now + max 360 (token.lifetime / 10)) % 2 ^ 64)
      then fetched token (api.fetch_access_token api_key iam_endpoint v)
      else (ok tt, (token, v))

  -- The sum of `u64` is written with the wrap-around of a release build.
  unfoldable pub check_token : Text → Text → Exec (Token × V) Text (Unit {0})
  check_token api_key iam_endpoint (token, v) =
      checked api_key iam_endpoint token (api.current_unix_timestamp v)

  abbrev pub with_token :
      Service → Result Text (Unit {0}) × (Token × V) → Result QrmiError (Unit {0}) × (Service × V)
  with_token self (r, (token, v)) = (ok tt, (record self { token = token }, v))

  -- `if let Err(e) = check_token(..) { error!(..) }`: an error is only logged.
  unfoldable pub renew : Exec (Service × V) QrmiError (Unit {0})
  unfolding check_token
  renew (self, v) = with_token self (check_token self.api_key self.iam_endpoint (self.token, v))

  abbrev pub called :
      {A : Type 0}
      → ResourceKind
      → Service
      → Result ApiError A × V
      → Result QrmiError A × (Service × V)
  called resource_kind self (r, v) = (map_err (classify resource_kind) r, (self, v))

  -- `call(&self.config, ..).await.map_err(|e| classify(e, ..))?`
  abbrev pub call :
      {A : Type 0} → ResourceKind → (Service → Exec V ApiError A) → Exec (Service × V) QrmiError A
  call resource_kind f (self, v) = called resource_kind self (f self v)
