-- ===== src/Runner/Input/Submitted.antt =====
-- A native request that the task runner takes (src/bin/task_runner.rs) passes the checks of the
-- resource of Maestro Local (src/maestro/local.rs).
use qrmi.Prelude.{◌≡◌, Bool, true, false, Option, none, some}
use qrmi.Text.{Text, codes, eq_ignore_ascii_case}
use qrmi.Errors.{QrmiError}
use qrmi.Models.{Payload}
use qrmi.Json.{Value, Codec}
use qrmi.Maestro.Socket.{Socket}
use qrmi.Maestro.Request.{Json}
use qrmi.Maestro.Local.{MaestroLocal, get_session_id}
use qrmi.Maestro.Local.Tasks.Submit.{task_start, start_native}
use qrmi.Runner.Input.{ResourceType, maestro_local, is_native}
use qrmi.Runner.Input.Accepted.{IsRequestOf}

abbrev pub reads_native : Option Value → Bool
reads_native none = false
reads_native (some request) = is_native request

abbrev pub is_request_job : ResourceType → Bool
is_request_job (maestro_local input job_type qubits sim method observables config) =
    eq_ignore_ascii_case job_type (codes "request")
is_request_job _ = false

module _ {V Doc : Type 0} (socket : Socket V) (json : Json Doc) (codec : Codec)
    (display : QrmiError → Text)
    (printed : (request : Value)
      → is_native request ≡ true
      → reads_native (codec.from_str (codec.to_string request)) ≡ true)
    (s : MaestroLocal × V) where
  -- The document holds a request, whose text is what the resource submits.
  abbrev pub Passes : Value → Payload → Type 0
  Passes value payload =
      (request : Value) × IsRequestOf codec value request
      × (task_start socket json codec display payload s
          ≡ start_native socket json codec display (codec.to_string request) (get_session_id s.0) s)
