-- ===== src/Maestro/Request.antt =====
-- The native requests (dependencies/maestro_rust_library/src/maestro/request.rs). The state is the
-- flag `negotiated` of the client and its clones, and the world.
use qrmi.Prelude.{
  ℕ, ◌*◌, Bool, true, false, ◌||◌, ◌&&◌, Option, none, some, List, [], ◌∷◌, ◌++◌, ltb, ◌==◌,
  if◌then◌else◌, take,
}
use qrmi.Text.{Text, codes, eq_text, trim, strip_prefix, len_utf8}
use qrmi.Result.{Result, ok, err}
use qrmi.Exec.{Exec, ◌>>=◌, ◌>>◌, return, throw, lift}
use qrmi.Maestro.Socket.{Socket, exchange}

-- The crate `json`. `member` is the index by a name, null where there is none.
pub record Json (Doc : Type 0) : Type 0 where
  pub parse : Text → Result Text Doc
  pub dump : Doc → Text
  pub object : List (Text × Doc) → Doc
  pub number : ℕ → Doc
  pub string : Text → Doc
  pub member : Doc → Text → Doc
  pub is_object : Doc → Bool
  pub is_null : Doc → Bool
  pub as_u32 : Doc → Option ℕ
  pub as_u64 : Doc → Option ℕ
  pub as_bool : Doc → Option Bool
  pub as_str : Doc → Option Text

pub record Error : Type 0 where
  pub code : Text
  pub message : Text

abbrev pub failure : Text → Text → Error
failure code message = record { code = code; message = message }

pub record Status : Type 0 where
  pub accepting_jobs : Bool
  pub healthy : Option Bool
  pub busy : Option Bool
  pub pending_job_count : Option ℕ
  pub reason : Option Text

abbrev pub version : ℕ
version = 2

abbrev pub max_request_bytes : ℕ
max_request_bytes = 16 * 1024 * 1024

abbrev pub is_version : Option ℕ → Bool
is_version (some n) = n == version
is_version none = false

-- After such an error the client negotiates again.
abbrev pub loses_version : Text → Bool
loses_version code =
    eq_text code (codes "transport")
    || eq_text code (codes "protocol")
    || eq_text code (codes "unsupported_api")
    || eq_text code (codes "unsupported_version")

abbrev pub or_text : Text → Option Text → Text
or_text s none = s
or_text s (some t) = t

module _ {Doc : Type 0} (json : Json Doc) where
  abbrev pub refusal : Doc → Error
  refusal e =
      failure (or_text (codes "server_error") (json.as_str (json.member e (codes "code")))) (
        or_text (codes "Unspecified Maestro error") (json.as_str (json.member e (codes "message"))))

  abbrev pub answer : Doc → Option Bool → Result Error Doc
  answer doc (some true) = ok doc
  answer doc (some false) = err (refusal (json.member doc (codes "error")))
  answer doc none = err (failure (codes "protocol") (codes "Missing response status"))

  abbrev pub versioned : Doc → Bool
  versioned doc = is_version (json.as_u32 (json.member doc (codes "version")))

  abbrev pub parsed_document : Result Text Doc → Result Error Doc
  parsed_document (err e) = err (failure (codes "protocol") (codes "Malformed API response: " ++ e))
  parsed_document (ok doc) =
      if versioned doc
      then answer doc (json.as_bool (json.member doc (codes "ok")))
      else err (failure (codes "unsupported_api") (codes "Incompatible Maestro public API version"))

  abbrev pub parsed_reply : Text → Option Text → Result Error Doc
  parsed_reply response none = err (
      failure (codes "unsupported_api")
        (codes "Maestro server does not support request API v2: " ++ trim response))
  parsed_reply response (some document) = parsed_document (json.parse (trim document))

  unfoldable pub parse_response : Text → Result Error Doc
  unfolding trim strip_prefix eq_text
  parse_response response = parsed_reply response (strip_prefix (codes "OK ") response)

  abbrev pub enveloped : Result Text Doc → Bool
  enveloped (err e) = false
  enveloped (ok doc) = versioned doc

  abbrev pub is_envelope : Option Text → Bool
  is_envelope none = false
  is_envelope (some document) = enveloped (json.parse (trim document))

  unfoldable pub parse_submission_response : Text → Result Error Doc
  unfolding trim strip_prefix parse_response
  parse_submission_response response =
      if is_envelope (strip_prefix (codes "OK ") response)
      then parse_response response
      else err (
          failure (codes "protocol") (
            codes "Unrecognized reply to a submission; the task may have been created: "
            ++ take 256 (trim response)))

  abbrev pub command_of : Doc → Text
  command_of document = codes "API " ++ (json.dump document ++ codes "\n")

  abbrev pub plain_command : Text → Doc
  plain_command name =
      json.object
        ((codes "version", json.number version) ∷ (codes "command", json.string name) ∷ [])

  abbrev pub submission : ℕ → Doc → Doc
  submission session_id request = json.object (
      (codes "version", json.number version)
      ∷ (codes "command", json.string (codes "submit"))
      ∷ (codes "session_id", json.number session_id)
      ∷ (codes "request", request)
      ∷ [])

  abbrev pub logs_request : ℕ → ℕ → Doc
  logs_request session_id task_id = json.object (
      (codes "version", json.number version)
      ∷ (codes "command", json.string (codes "logs"))
      ∷ (codes "session_id", json.number session_id)
      ∷ (codes "task_id", json.number task_id)
      ∷ [])

  -- A number of the reply, or a malformed status.
  abbrev pub malformed : Error
  malformed = failure (codes "protocol") (codes "Invalid server status response")

  abbrev pub required : {A : Type 0} → Option A → Result Error A
  required none = err malformed
  required (some a) = ok a

  abbrev pub reason_text : Option Text → Result Error (Option Text)
  reason_text none = err malformed
  reason_text (some t) = ok (some t)

  abbrev pub reason_of : Doc → Result Error (Option Text)
  reason_of doc = if json.is_null doc then ok none else reason_text (json.as_str doc)

  module _ {V : Type 0} (socket : Socket V) where
    abbrev Client : Type 0 → Type 0
    Client A = Exec (Bool × V) Error A

    abbrev pub after_parse : Bool → Result Error Doc × V → Result Error Doc × (Bool × V)
    after_parse negotiated (ok doc, v) = (ok doc, (negotiated, v))
    after_parse negotiated (err e, v) =
        (err e, (if loses_version e.code then false else negotiated, v))

    abbrev pub parsed_exchange :
        (Text → Result Error Doc) → Result Text Text × V → Result Error Doc × V
    parsed_exchange parse (ok response, v) = (parse response, v)
    parsed_exchange parse (err e, v) = (err (failure (codes "transport") e), v)

    unfoldable pub call_with : Doc → (Text → Result Error Doc) → Exec (Bool × V) Error Doc
    unfolding exchange len_utf8 eq_text
    call_with document parse (negotiated, v) =
        let command = command_of document in
        if ltb max_request_bytes (len_utf8 command)
        then (
          err (
              failure (codes "invalid_input") (codes "Request exceeds the 16 MiB transport limit")),
          (negotiated, v),
        )
        else after_parse negotiated (parsed_exchange parse (exchange socket command v))

    abbrev pub negotiate : Bool → Exec (Bool × V) Error (Unit {0})
    negotiate b (negotiated, v) = (ok tt, (b, v))

    abbrev pub catalog : Doc → Exec (Bool × V) Error Text
    catalog doc =
        if is_version
          (json.as_u32 (json.member (json.member doc (codes "native")) (codes "schema_version")))
        then (do negotiate true; return (json.dump doc))
        else throw (
            failure (codes "unsupported_api")
              (codes "Server lacks Maestro native request schema 2"))

    unfoldable pub capabilities : Exec (Bool × V) Error Text
    unfolding call_with parse_response
    capabilities = do
      negotiate false
      doc ← call_with (plain_command (codes "capabilities")) parse_response
      catalog doc

    abbrev pub ensure_negotiated : Exec (Bool × V) Error (Unit {0})
    ensure_negotiated (true, v) = (ok tt, (true, v))
    ensure_negotiated (false, v) = (do catalog ← capabilities; return tt) (false, v)

    abbrev pub task_id_in : Option ℕ → Exec (Bool × V) Error ℕ
    task_id_in (some id) = return id
    task_id_in none = do
      negotiate false
      throw (failure (codes "protocol") (codes "Missing task_id; the task may have been created"))

    abbrev pub submit_document : ℕ → Doc → Exec (Bool × V) Error ℕ
    submit_document session_id request = do
      ensure_negotiated
      response ← call_with (submission session_id request) parse_submission_response
      task_id_in (json.as_u32 (json.member response (codes "task_id")))

    abbrev pub submit_parsed : ℕ → Result Text Doc → Exec (Bool × V) Error ℕ
    submit_parsed session_id (err e) = throw (failure (codes "invalid_input") e)
    submit_parsed session_id (ok request) =
        if json.is_object request
          && is_version (json.as_u32 (json.member request (codes "schema_version")))
        then submit_document session_id request
        else throw (
            failure (codes "invalid_input")
              (codes "Native request must be an object with schema_version=2"))

    unfoldable pub submit : ℕ → Text → Exec (Bool × V) Error ℕ
    unfolding capabilities call_with parse_submission_response
    submit session_id request = submit_parsed session_id (json.parse request)

    unfoldable pub logs : ℕ → ℕ → Exec (Bool × V) Error Text
    unfolding call_with parse_response
    logs session_id task_id = do
      doc ← call_with (logs_request session_id task_id) parse_response
      return (json.dump doc)

    abbrev legacy_status : Bool → Status
    legacy_status accepting_jobs = record {
      accepting_jobs = accepting_jobs;
      healthy = none;
      busy = none;
      pending_job_count = none;
      reason = none;
    }

    abbrev ping_status : Text → Result Error Status
    ping_status ping =
        if eq_text ping (codes "OK") || eq_text ping (codes "OK YES")
        then ok (legacy_status true)
        else if eq_text ping (codes "OK NO")
        then ok (legacy_status false)
        else err (failure (codes "protocol") (codes "Invalid legacy PING response: " ++ ping))

    abbrev pinged : Bool → Result Text Text × V → Result Error Status × (Bool × V)
    pinged negotiated (err e, v) = (err (failure (codes "transport") e), (negotiated, v))
    pinged negotiated (ok ping, v) = (ping_status (trim ping), (negotiated, v))

    abbrev status_in : Doc → Exec (Bool × V) Error Status
    status_in status = do
      reason ← lift (reason_of (json.member status (codes "status_reason")))
      accepting_jobs ← lift (required (json.as_bool (json.member status (codes "accepting_jobs"))))
      healthy ← lift (required (json.as_bool (json.member status (codes "healthy"))))
      busy ← lift (required (json.as_bool (json.member status (codes "busy"))))
      pending ← lift (required (json.as_u64 (json.member status (codes "pending_job_count"))))
      return (record {
        accepting_jobs = accepting_jobs;
        healthy = some healthy;
        busy = some busy;
        pending_job_count = some pending;
        reason = reason;
      })

    abbrev is_unsupported : Result Error Doc → Bool
    is_unsupported (ok doc) = false
    is_unsupported (err e) = eq_text e.code (codes "unsupported_operation")

    abbrev status_of : Result Error Doc → Exec (Bool × V) Error Status
    status_of (err e) = throw e
    status_of (ok doc) = status_in (json.member doc (codes "status"))

    abbrev status_reply : Bool → Result Text Text × V → Result Error Status × (Bool × V)
    status_reply negotiated (err e, v) = (err (failure (codes "transport") e), (negotiated, v))
    status_reply negotiated (ok response, v) =
        let reply = parse_response response in
        if eq_text (trim response) (codes "ERROR Unknown command") || is_unsupported reply
        then pinged negotiated (exchange socket (codes "PING\n") v)
        else status_of reply (negotiated, v)

    unfoldable pub status : Exec (Bool × V) Error Status
    unfolding exchange parse_response trim eq_text
    status (negotiated, v) =
        status_reply negotiated (exchange socket (command_of (plain_command (codes "status"))) v)
