-- ===== src/Maestro/Local.antt =====
-- The resource of Maestro Local (src/maestro/local.rs): its fields, its constructors, and the calls
-- of the client that its methods share. A worker thread of `blocking` runs to its end, since no
-- operation on the socket panics.
pub mod Tasks
use qrmi.Prelude.{
  ℕ, Bool, true, false, Option, none, some, List, [], ◌∷◌, ◌++◌, ◌||◌, ◌&&◌, ◌==◌, not,
  if◌then◌else◌, unwrap_or,
}
use qrmi.Text.{Text, codes, eq_text, parse_u32, print_ℕ}
use qrmi.Result.{Result, ok, err}
use qrmi.Exec.{Exec, ◌>>=◌, ◌>>◌, return, throw, lift}
use qrmi.Errors.{QrmiError, Message, text}
use qrmi.Models.{TaskStatus}
use qrmi.Settings.{Config, Env, resolve_opt}
use qrmi.Json.{Value, Codec, as_str, member, last}
use qrmi.Maestro.Socket.{Socket}
use qrmi.Maestro.Session.{Task, exists_at}
use qrmi.Maestro.Request.{Json, Error, logs}

-- The tasks that were seen to end, by session and task.
abbrev pub TerminalTasks : Type 0
TerminalTasks = List ((ℕ × ℕ) × TaskStatus)

-- `negotiated` is the flag of the client and its clones.
pub record MaestroLocal : Type 0 where
  pub backend_name : Text
  pub session_id : Option ℕ
  pub socket : Text
  pub negotiated : Bool
  pub terminal_tasks : TerminalTasks

abbrev pub note : Text → Message
note s = text s ∷ []

abbrev pub same_task : ℕ × ℕ → ℕ × ℕ → Bool
same_task (a, b) (c, d) = a == c && b == d

-- The map's `get`, `remove`, `insert`, and `retain` of the other sessions.
unfoldable pub lookup : ℕ × ℕ → TerminalTasks → Option TaskStatus
lookup key [] = none
lookup key ((k, status) ∷ tasks) = if same_task k key then some status else lookup key tasks

unfoldable pub remove : ℕ × ℕ → TerminalTasks → TerminalTasks
remove key [] = []
remove key ((k, status) ∷ tasks) =
    if same_task k key then remove key tasks else (k, status) ∷ remove key tasks

unfoldable pub insert : ℕ × ℕ → TaskStatus → TerminalTasks → TerminalTasks
unfolding remove
insert key status tasks = (key, status) ∷ remove key tasks

unfoldable pub retain_others : ℕ → TerminalTasks → TerminalTasks
retain_others session [] = []
retain_others session ((k, status) ∷ tasks) =
    if k.0 == session
    then retain_others session tasks
    else (k, status) ∷ retain_others session tasks

abbrev pub is_terminal : TaskStatus → Bool
is_terminal TaskStatus.completed = true
is_terminal TaskStatus.failed = true
is_terminal TaskStatus.cancelled = true
is_terminal _ = false

abbrev pub token_name : Text → Text
token_name backend_name = backend_name ++ codes "_QRMI_JOB_ACQUISITION_TOKEN"

abbrev pub read_session : Text → Text → Option ℕ → Result QrmiError (Option ℕ)
read_session name value none = err (QrmiError.parse_error name value)
read_session name value (some id) = ok (some id)

-- `transpose` of the setting, read as a number.
abbrev pub session_in : Text → Option Text → Result QrmiError (Option ℕ)
session_in name none = ok none
session_in name (some value) = read_session name value (parse_u32 value)

abbrev pub fresh : Text → Text → Option ℕ → MaestroLocal
fresh backend_name socket session_id = record {
  backend_name = backend_name;
  session_id = session_id;
  socket = socket;
  negotiated = false;
  terminal_tasks = [];
}

abbrev pub built : Text → Text → Result QrmiError (Option ℕ) → Result QrmiError MaestroLocal
built backend_name socket (err e) = err e
built backend_name socket (ok session_id) = ok (fresh backend_name socket session_id)

abbrev pub default_socket : Text
default_socket = codes "/run/maestro.sock"

-- The values of the environment are UTF-8.
unfoldable pub new : Env → Text → Result QrmiError MaestroLocal
unfolding parse_u32
new env backend_name =
    built backend_name (unwrap_or (env (codes "QRMI_MAESTRO_SOCKET")) default_socket)
      (session_in (token_name backend_name) (env (token_name backend_name)))

unfoldable pub from_config : Env → Text → Config → Result QrmiError MaestroLocal
unfolding parse_u32 resolve_opt
from_config env backend_name config =
    built backend_name
      (unwrap_or (resolve_opt env (codes "QRMI_MAESTRO_SOCKET") (some config)) default_socket)
      (session_in (codes "QRMI_JOB_ACQUISITION_TOKEN")
        (resolve_opt env (codes "QRMI_JOB_ACQUISITION_TOKEN") (some config)))

abbrev no_session : Text → QrmiError
no_session backend_name = QrmiError.invalid_config (
    note (
      codes "No session for "
      ++ backend_name
      ++ codes ". Call acquire() or set "
      ++ backend_name
      ++ codes "_QRMI_JOB_ACQUISITION_TOKEN before constructing the resource"))

abbrev session_or_error : Text → Option ℕ → Result QrmiError ℕ
session_or_error backend_name none = err (no_session backend_name)
session_or_error backend_name (some id) = ok id

unfoldable pub get_session_id : MaestroLocal → Result QrmiError ℕ
get_session_id self = session_or_error self.backend_name self.session_id

abbrev task_in : ℕ → Result QrmiError ℕ → Result QrmiError Task
task_in id (err e) = err e
task_in id (ok session_id) = ok (record { id = id; session_id = session_id })

abbrev task_of : Text → MaestroLocal → Option ℕ → Result QrmiError Task
task_of task_id self none =
    err (QrmiError.invalid_input (note (codes "Invalid task ID: " ++ task_id)))
task_of task_id self (some id) = task_in id (get_session_id self)

unfoldable pub task : MaestroLocal → Text → Result QrmiError Task
unfolding get_session_id parse_u32
task self task_id = task_of task_id self (parse_u32 task_id)

abbrev pub key : Task → ℕ × ℕ
key task = (task.session_id, task.id)

-- The error of the native client by its code.
abbrev printed : Error → Text
printed e = e.code ++ codes ": " ++ e.message

unfoldable pub native_error : Error → QrmiError
unfolding eq_text
native_error e =
    if eq_text e.code (codes "invalid_input")
    then QrmiError.invalid_input (note e.message)
    else if eq_text e.code (codes "unsupported_api")
        || eq_text e.code (codes "unsupported_version")
        || eq_text e.code (codes "unsupported_capability")
        || eq_text e.code (codes "unsupported_operation")
    then QrmiError.unsupported_function (printed e)
    else if eq_text e.code (codes "invalid_config") || eq_text e.code (codes "session_not_found")
    then QrmiError.invalid_config (note (printed e))
    else if eq_text e.code (codes "task_not_found")
    then QrmiError.task_not_found e.message
    else QrmiError.other (note (codes "Maestro API: " ++ printed e))

abbrev pub operation_failed : Text → Task → Text → QrmiError
operation_failed operation task e =
    QrmiError.other (note (operation ++ codes " for task " ++ print_ℕ task.id ++ codes ": " ++ e))

abbrev pub missing : Task → QrmiError
missing task = QrmiError.task_not_found (print_ℕ task.id)

-- A method.
abbrev pub Local : Type 0 → Type 0 → Type 0
Local V A = Exec (MaestroLocal × V) QrmiError A

module _ {V : Type 0} where
  abbrev pub blocking : {B : Type 0} → (V → B × V) → Local V B
  blocking operation (self, v) = let (b, v') = operation v in (ok b, (self, v'))

  abbrev pub native_result :
      {A : Type 0}
      → MaestroLocal
      → Result Error A × (Bool × V)
      → Result QrmiError A × (MaestroLocal × V)
  native_result self (ok a, (negotiated, v)) = (ok a, (record self { negotiated = negotiated }, v))
  native_result self (err e, (negotiated, v)) =
      (err (native_error e), (record self { negotiated = negotiated }, v))

  abbrev pub native_api : {A : Type 0} → Exec (Bool × V) Error A → Local V A
  native_api operation (self, v) = native_result self (operation (self.negotiated, v))

module _ {V Doc : Type 0} (socket : Socket V) (json : Json Doc) (codec : Codec) where
  unfoldable pub task_exists : Task → Local V (Result Text Bool)
  task_exists task = blocking (exists_at socket task)

  abbrev existing : Task → Result Text Bool → Local V (Unit {0})
  existing task (ok true) = return tt
  existing task (ok false) = throw (missing task)
  existing task (err e) =
      throw (
        QrmiError.other
          (note (codes "Failed to check task " ++ print_ℕ task.id ++ codes ": " ++ e)))

  unfoldable pub ensure_task_exists : Task → Local V (Unit {0})
  unfolding task_exists
  ensure_task_exists task = do exists ← task_exists task; existing task exists

  -- The original failure, unless the server confirms that the task has disappeared.
  abbrev blamed : Task → Text → Text → Result Text Bool → QrmiError
  blamed task operation e (ok false) = missing task
  blamed task operation e _ = operation_failed operation task e

  unfoldable pub task_response : {T : Type 0} → Task → Text → Result Text T → Local V T
  unfolding task_exists
  task_response task operation (ok value) = return value
  task_response task operation (err e) = do
    exists ← task_exists task
    throw (blamed task operation e exists)

  abbrev is_cancelled : Option Text → Bool
  is_cancelled none = false
  is_cancelled (some state) = eq_text state (codes "cancelled")

  abbrev state_is_cancelled : Option Value → Bool
  state_is_cancelled none = false
  state_is_cancelled (some event) = is_cancelled (as_str (member event (codes "state")))

  abbrev ends_cancelled : Option Value → Bool
  ends_cancelled none = false
  ends_cancelled (some document) = state_is_cancelled (last (member document (codes "events")))

  abbrev recorded :
      Result QrmiError Text × (MaestroLocal × V) → Result QrmiError Bool × (MaestroLocal × V)
  recorded (ok diagnostics, s) = (ok (ends_cancelled (codec.from_str diagnostics)), s)
  recorded (err e, s) = (ok false, s)

  unfoldable pub cancellation_recorded : Task → Local V Bool
  unfolding native_error eq_text
  cancellation_recorded task s = recorded (native_api (logs json socket task.session_id task.id) s)
