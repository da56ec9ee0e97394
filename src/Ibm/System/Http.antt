-- ===== src/Ibm/System/Http.antt =====
-- The requests of the client of the Quantum System API: the access token that its middleware holds
-- (dependencies/quantum_system_client/src/middleware/auth.rs), and how it explains an answer
-- (src/client.rs and src/error.rs there). The middleware locks the manager of the token for the time
-- of a request. The bodies of the requests can be cloned, and
-- those of the answers can be read.
pub mod Errors
pub mod Retry
pub mod Bounds
use qrmi.Prelude.{
  ℕ, ◌+◌, ◌==◌, ltb, leb, Bool, true, false, not, ◌&&◌, ◌||◌, Option, none, some, List, [], ◌∷◌,
  ◌++◌, if◌then◌else◌, unwrap_or,
}
use qrmi.Text.{Text, codes}
use qrmi.Result.{Result, ok, err}
use qrmi.Exec.{Exec, ◌>>=◌, ◌>>◌, return, throw}
use qrmi.Ibm.System.Http.Retry.{RetryPolicy, retrying}
use qrmi.Ibm.System.Api.{
  SystemError, backend_not_found, job_not_found, authentication_failed, invalid_job_input,
  other_error,
}

-- An error of the middleware or of the HTTP library, with what `explain_reqwest_middleware_error` says
-- of it, or a panic.
pub data MiddlewareError : Type 0 where
  middleware reqwest : Text → MiddlewareError
  panicked : MiddlewareError

pub record Reply : Type 0 where
  pub status : ℕ
  pub body : Text

pub record IamError : Type 0 where
  pub details : Option Text
  pub message : Text
  pub code : Text

-- The manager of the method `IbmCloudIam`.
pub record TokenManager : Type 0 where
  pub access_token : Option Text
  pub token_expiry : Option ℕ
  pub token_url : Text
  pub apikey : Text

-- The HTTP library over a world `V`: `attempt_token` asks for a token once, and `token_policy` says
-- when it is asked again; `run` is `next`, the rest of the chain for a request with the retries that
-- stand in it, which for an answer 429 have no bound; and `authorize` sets the bearer of a request, where it is the value of a
-- header. `lifetime` is nine tenths of a number of seconds, in floating point, on the clock.
pub record Net (V Request : Type 0) : Type 0 where
  pub attempt_token : Text → Text → Exec V MiddlewareError Reply
  pub token_policy : RetryPolicy V (Result MiddlewareError Reply)
  pub read_token : Text → Result Text (Text × ℕ)
  pub read_iam_error : Text → Option IamError
  -- `ExtendedErrorResponse`, printed
  pub read_error : Text → Option Text
  pub canonical_reason : ℕ → Option Text
  pub print_status : ℕ → Text
  pub now : V → ℕ × V
  pub lifetime : ℕ → ℕ
  pub authorize : Text → Request → Option Request
  pub run : Request → Exec V MiddlewareError Reply

abbrev pub is_success : ℕ → Bool
is_success status = leb 200 status && ltb status 300

abbrev pub is_server_error : ℕ → Bool
is_server_error status = leb 500 status && ltb status 600

module _ {V Request : Type 0} (net : Net V Request) where
  abbrev Managed : Type 0 → Type 0
  Managed A = Exec (TokenManager × V) MiddlewareError A

  abbrev pub hold :
      TokenManager → Text → ℕ → ℕ × V → Result MiddlewareError (Unit {0}) × (TokenManager × V)
  hold m token expires_in (t, v) = (
    ok tt,
    (record m { access_token = some token; token_expiry = some (t + net.lifetime expires_in) }, v),
  )

  abbrev pub granted :
      TokenManager
      → V
      → Result Text (Text × ℕ)
      → Result MiddlewareError (Unit {0}) × (TokenManager × V)
  granted m v (ok (token, expires_in)) = hold m token expires_in (net.now v)
  granted m v (err e) = (err (reqwest e), (m, v))

  abbrev pub refusal : TokenManager → ℕ → Option IamError → Text
  refusal m status (some e) =
      codes "Failed to obtain access token. reason: "
      ++ unwrap_or e.details e.message
      ++ codes " ("
      ++ e.code
      ++ codes ")"
  refusal m status none =
      codes "Failed to obtain access token. reason: "
      ++ unwrap_or (net.canonical_reason status) []
      ++ codes " ("
      ++ net.print_status status
      ++ codes "), url: "
      ++ m.token_url

  abbrev pub answered :
      TokenManager
      → Result MiddlewareError Reply × V
      → Result MiddlewareError (Unit {0}) × (TokenManager × V)
  answered m (err e, v) = (err e, (m, v))
  answered m (ok reply, v) =
      if is_success reply.status
      then granted m v (net.read_token reply.body)
      else (err (middleware (refusal m reply.status (net.read_iam_error reply.body))), (m, v))

  -- The client of the manager sends through the middleware that sends again.
  unfoldable pub post_token : Text → Text → Exec V MiddlewareError Reply
  unfolding retrying
  post_token token_url apikey =
      retrying net.token_policy (net.attempt_token token_url apikey) net.token_policy.max_n_retries
        0

  unfoldable pub get_access_token : Managed (Unit {0})
  unfolding post_token
  get_access_token (m, v) = answered m (post_token m.token_url m.apikey v)

  abbrev pub renew_if :
      TokenManager → ℕ → ℕ × V → Result MiddlewareError (Unit {0}) × (TokenManager × V)
  renew_if m expiry (t, v) = if leb expiry t then get_access_token (m, v) else (ok tt, (m, v))

  -- Without an expiry the clock is read twice.
  abbrev pub at_now : TokenManager → ℕ × V → Result MiddlewareError (Unit {0}) × (TokenManager × V)
  at_now m (t, v) = renew_if m t (net.now v)

  abbrev pub unless_valid :
      TokenManager
      → V
      → Option Text
      → Option ℕ
      → Result MiddlewareError (Unit {0}) × (TokenManager × V)
  unless_valid m v none expiry = get_access_token (m, v)
  unless_valid m v (some token) none = at_now m (net.now v)
  unless_valid m v (some token) (some expiry) = renew_if m expiry (net.now v)

  unfoldable pub ensure_token_validity : Managed (Unit {0})
  unfolding get_access_token
  ensure_token_validity (m, v) = unless_valid m v m.access_token m.token_expiry

  abbrev pub held : Option Text → Managed Text
  held none = throw panicked
  held (some token) = return token

  abbrev pub held_token : Managed Text
  held_token s = held s.0.access_token s

  unfoldable pub get_token : Managed Text
  unfolding ensure_token_validity
  get_token = do ensure_token_validity; held_token

  abbrev pub ran :
      TokenManager
      → Result MiddlewareError Reply × V
      → Result MiddlewareError Reply × (TokenManager × V)
  ran m (r, v) = (r, (m, v))

  abbrev pub send : Option Request → Managed Reply
  send none s = (err panicked, s)
  send (some request) (m, v) = ran m (net.run request v)

  abbrev pub send_with : Request → Text → Managed Reply
  send_with request token = send (net.authorize token request)

  abbrev pub send_renewed : Request → Managed Reply
  send_renewed request = do get_access_token; token ← get_token; send_with request token

  abbrev pub unless_rejected : Request → Reply → Managed Reply
  unless_rejected request reply = if reply.status == 401 then send_renewed request else return reply

  unfoldable pub handle : Request → Managed Reply
  unfolding get_token get_access_token
  handle request = do
    token ← get_token
    reply ← send_with request token
    unless_rejected request reply
