-- ===== src/Ibm/System/Http/Errors.antt =====
-- How the client of the Quantum System API explains an answer or a failure
-- (dependencies/quantum_system_client/src/client.rs and src/error.rs there), and what a caller of the
-- resource sees of it (src/ibm/error.rs).
use qrmi.Prelude.{ℕ, ◌==◌, ◌||◌, Option, none, some, ◌++◌, ◌≡◌, ◌↔◌, ◌⊎◌, if◌then◌else◌, arith}
use qrmi.Text.{Text, codes}
use qrmi.Result.{Result, ok, err}
use qrmi.Exec.{Exec}
use qrmi.Errors.{QrmiErrorKind}
use qrmi.Errors.Kinds.{kind}
use qrmi.Ibm.System.Api.{SystemError, from_error}
use qrmi.Ibm.System.Http.{
  Net, TokenManager, MiddlewareError, middleware, reqwest, panicked, Reply, handle, is_success,
  is_server_error,
}

pub data ResourceKind : Type 0 where
  backend job other : ResourceKind

pub data QuantumSystemError : Type 0 where
  request authentication_failed access_denied : Text → QuantumSystemError
  backend_not_found job_not_found request_timeout : Text → QuantumSystemError
  invalid_job_input execution_lanes_full server_error : Text → QuantumSystemError
  -- the status
  api : ℕ → Text → QuantumSystemError
  job_not_ready : Text → QuantumSystemError
  -- `Reqwest`, `Json`, `Io` and `Other`, printed, and a panic of the middleware
  transport json io external : Text → QuantumSystemError
  panic : QuantumSystemError

-- How the error is printed.
abbrev pub printed : (ℕ → Text) → QuantumSystemError → Text
printed print_status (QuantumSystemError.request msg) = codes "request failed: " ++ msg
printed print_status (QuantumSystemError.authentication_failed msg) =
    codes "authentication failed: " ++ msg
printed print_status (QuantumSystemError.access_denied msg) = codes "access denied: " ++ msg
printed print_status (QuantumSystemError.backend_not_found msg) = codes "backend not found: " ++ msg
printed print_status (QuantumSystemError.job_not_found msg) = codes "job not found: " ++ msg
printed print_status (QuantumSystemError.request_timeout msg) = codes "request timeout: " ++ msg
printed print_status (QuantumSystemError.invalid_job_input msg) = codes "invalid job input: " ++ msg
printed print_status (QuantumSystemError.execution_lanes_full msg) =
    codes "execution lanes full: " ++ msg
printed print_status (QuantumSystemError.server_error msg) = codes "server error: " ++ msg
printed print_status (QuantumSystemError.api status body) =
    codes "API error (" ++ print_status status ++ codes "): " ++ body
printed print_status (QuantumSystemError.json msg) = msg
printed print_status (QuantumSystemError.job_not_ready msg) = msg
printed print_status (QuantumSystemError.transport msg) = msg
printed print_status (QuantumSystemError.io msg) = msg
printed print_status (QuantumSystemError.external msg) = msg
printed print_status QuantumSystemError.panic = codes "panic"

-- What `From<QuantumSystemError> for QrmiError` tells apart.
abbrev pub told : (ℕ → Text) → QuantumSystemError → SystemError
told print_status (QuantumSystemError.backend_not_found msg) = SystemError.backend_not_found msg
told print_status (QuantumSystemError.job_not_found msg) = SystemError.job_not_found msg
told print_status (QuantumSystemError.authentication_failed msg) =
    SystemError.authentication_failed msg
told print_status (QuantumSystemError.invalid_job_input msg) = SystemError.invalid_job_input msg
told print_status e = SystemError.other_error (printed print_status e)

abbrev pub missing : ResourceKind → ℕ → Text → QuantumSystemError
missing backend status body = QuantumSystemError.backend_not_found body
missing job status body = QuantumSystemError.job_not_found body
missing other status body = QuantumSystemError.api status body

-- The match of `from_response`, of the status and of what the body says.
unfoldable pub from_status : ℕ → ResourceKind → Text → QuantumSystemError
from_status status resource body =
    if status == 401
    then QuantumSystemError.authentication_failed body
    else if status == 403
    then QuantumSystemError.access_denied body
    else if status == 404
    then missing resource status body
    else if status == 408
    then QuantumSystemError.request_timeout body
    else if status == 400 || status == 409 || status == 413 || status == 422
    then QuantumSystemError.invalid_job_input body
    else if status == 429
    then QuantumSystemError.execution_lanes_full body
    else if is_server_error status
    then QuantumSystemError.server_error body
    else QuantumSystemError.api status body

abbrev pub body_or : Text → Option Text → Text
body_or url none = codes "(no error body available; request URL: " ++ url ++ codes ")"
body_or url (some body) = body

unfoldable pub from_middleware_error : MiddlewareError → QuantumSystemError
from_middleware_error (middleware msg) = QuantumSystemError.authentication_failed msg
from_middleware_error (reqwest msg) = QuantumSystemError.request msg
from_middleware_error panicked = QuantumSystemError.panic

module _ {V Request T : Type 0} (net : Net V Request) (from_str : Text → Result Text T) where
  abbrev pub deserialized : Result Text T → Result QuantumSystemError T
  deserialized (ok t) = ok t
  deserialized (err e) = err (QuantumSystemError.json e)

  unfoldable pub from_response : Reply → Text → ResourceKind → QuantumSystemError
  unfolding from_status
  from_response reply url resource =
      from_status reply.status resource (body_or url (net.read_error reply.body))

  abbrev pub response_of :
      Text
      → ResourceKind
      → Result MiddlewareError Reply × (TokenManager × V)
      → Result QuantumSystemError T × (TokenManager × V)
  response_of url resource (err e, s) = (err (from_middleware_error e), s)
  response_of url resource (ok reply, s) = (
    if is_success reply.status
        then deserialized (from_str reply.body)
        else err (from_response reply url resource),
    s,
  )

  -- `Client::get` with the client that has the middleware.
  unfoldable pub get : Request → Text → ResourceKind → Exec (TokenManager × V) QuantumSystemError T
  unfolding handle from_response from_middleware_error
  get r url resource s = response_of url resource (handle net r s)

-- The kind of the error that a caller of the resource sees.
abbrev pub seen : (ℕ → Text) → QuantumSystemError → QrmiErrorKind
seen print_status e = kind (from_error (told print_status e))

-- Which answers a caller sees as a rejected credential, a missing task, a missing resource, or a bad
-- input.
abbrev pub SeenRight : (ℕ → Text) → ℕ → ResourceKind → Text → Type 0
SeenRight print_status status resource body =
    ((seen print_status (from_status status resource body) ≡ QrmiErrorKind.authentication_failed)
      ↔ (status ≡ 401))
    × ((seen print_status (from_status status resource body) ≡ QrmiErrorKind.task_not_found)
        ↔ ((status ≡ 404) × (resource ≡ job)))
    × ((seen print_status (from_status status resource body) ≡ QrmiErrorKind.resource_not_found)
        ↔ ((status ≡ 404) × (resource ≡ backend)))
    × ((seen print_status (from_status status resource body) ≡ QrmiErrorKind.invalid_input)
        ↔ ((status ≡ 400) ⊎ (status ≡ 409) ⊎ (status ≡ 413) ⊎ (status ≡ 422)))

-- An answer that is not a success is seen as a rejected credential exactly for the status 401, as a
-- missing task or resource exactly for the status 404 of a request about a job or a backend, and as a
-- bad input exactly for the statuses 400, 409, 413 and 422.
pub from_status-SeenRight :
    (print_status : ℕ → Text) (status : ℕ) (resource : ResourceKind) (body : Text)
    → SeenRight print_status status resource body
unfolding from_status from_error kind
from_status-SeenRight print_status status backend body =
    (ground arith, ground arith, ground arith, ground arith)
from_status-SeenRight print_status status job body =
    (ground arith, ground arith, ground arith, ground arith)
from_status-SeenRight print_status status other body =
    (ground arith, ground arith, ground arith, ground arith)
