-- ===== src/Maestro/Local/Tasks.antt =====
-- The methods of the resource of Maestro Local (src/maestro/local.rs).
pub mod Submit
pub mod Cache
pub mod Later
pub mod Ahead
pub mod Ends
pub mod Reach
pub mod Replies
pub mod Refusal
pub mod Answers
pub mod Ids
use qrmi.Prelude.{
  ℕ, Bool, true, false, Option, none, some, List, [], ◌∷◌, ◌++◌, ◌||◌, ◌&&◌, ◌==◌, not,
  if◌then◌else◌,
}
use qrmi.Text.{Text, codes, parse_u32, print_ℕ}
use qrmi.Result.{Result, ok, err}
use qrmi.Exec.{Exec, ◌>>=◌, ◌>>◌, return, throw, lift, modify}
use qrmi.Errors.{QrmiError, text}
use qrmi.Models.{TaskStatus, ResourceStatus, ResourceStatusCode}
use qrmi.Json.{Codec}
use qrmi.Maestro.Socket.{Socket, Response, ok_flag, error, ok_response, send_command}
use qrmi.Maestro.Session.{
  Task, failed_at, finished_at, running_at, cancel_at, get_results_as_string_at, session_exists_at,
  new_at, delete_at,
}
use qrmi.Maestro.Request.{Json, Status, logs, capabilities}
use qrmi.Maestro.Local.{
  MaestroLocal, Local, note, lookup, insert, retain_others, is_terminal, task, key, blocking,
  native_api, ensure_task_exists, task_response, cancellation_recorded,
}
use qrmi.Maestro.Request

abbrev pub status_name : TaskStatus → Text
status_name TaskStatus.queued = codes "Queued"
status_name TaskStatus.running = codes "Running"
status_name TaskStatus.completed = codes "Completed"
status_name TaskStatus.failed = codes "Failed"
status_name TaskStatus.cancelled = codes "Cancelled"

abbrev pub online_if : Bool → ResourceStatusCode
online_if true = ResourceStatusCode.online
online_if false = ResourceStatusCode.offline

abbrev pub resource_status : Status → ResourceStatus
resource_status status = record {
  status = online_if status.accepting_jobs;
  status_reason = status.reason;
  healthy = status.healthy;
  busy = status.busy;
  capacity = qrmi.Prelude.none;
  pending_job_count = status.pending_job_count;
}

abbrev pub same_session : Option ℕ → ℕ → Bool
same_session none id = false
same_session (some held) id = held == id

abbrev pub forget : ℕ → MaestroLocal → MaestroLocal
forget session_id self = record self {
  session_id = if same_session self.session_id session_id then none else self.session_id;
  terminal_tasks = retain_others session_id self.terminal_tasks;
}

abbrev pub unhold : MaestroLocal → MaestroLocal
unhold self = record self { session_id = none; terminal_tasks = [] }

abbrev pub hold : ℕ → MaestroLocal → MaestroLocal
hold id self = record self { session_id = some id }

module _ {V Doc : Type 0} (socket : Socket V) (json : Json Doc) (codec : Codec) where
  -- The server's view of a task that the resource has not seen end: it is asked for a failure again
  -- once the task has finished.
  abbrev finally : Bool → TaskStatus
  finally true = TaskStatus.failed
  finally false = TaskStatus.completed

  abbrev started : Bool → TaskStatus
  started true = TaskStatus.running
  started false = TaskStatus.queued

  abbrev unless_finished : Task → Bool → Local V TaskStatus
  unless_finished task true = do
    answer ← blocking (failed_at socket task)
    failed ←
        task_response socket json codec task (codes "Failed to get final failure status") answer
    return (finally failed)
  unless_finished task false = do
    answer ← blocking (running_at socket task)
    running ← task_response socket json codec task (codes "Failed to get running status") answer
    return (started running)

  abbrev unless_failed : Task → Bool → Local V TaskStatus
  unless_failed task true = return TaskStatus.failed
  unless_failed task false = do
    answer ← blocking (finished_at socket task)
    finished ← task_response socket json codec task (codes "Failed to get completion status") answer
    unless_finished task finished

  unfoldable pub server_task_status : Task → Local V TaskStatus
  unfolding ensure_task_exists task_response
  server_task_status task = do
    ensure_task_exists socket json codec task
    answer ← blocking (failed_at socket task)
    failed ← task_response socket json codec task (codes "Failed to get failure status") answer
    unless_failed task failed

  -- A status is kept once it is an end.
  abbrev pub observe : Task → TaskStatus → Local V TaskStatus
  observe t status (self, v) = (
    ok status,
    (
      if is_terminal status
          then record self { terminal_tasks = insert (key t) status self.terminal_tasks }
          else self,
      v,
    ),
  )

  abbrev pub confirmed :
      Task
      → Text
      → Result QrmiError Bool × (MaestroLocal × V)
      → Result QrmiError TaskStatus × (MaestroLocal × V)
  confirmed t id (ok true, s) = observe t TaskStatus.cancelled s
  confirmed t id (ok false, s) = (err (QrmiError.task_not_found id), s)
  confirmed t id (err e, s) = (err (QrmiError.task_not_found id), s)

  abbrev pub observed :
      Task
      → Result QrmiError TaskStatus × (MaestroLocal × V)
      → Result QrmiError TaskStatus × (MaestroLocal × V)
  observed t (err (QrmiError.task_not_found id), s) =
      confirmed t id (cancellation_recorded socket json codec t s)
  observed t (err e, s) = (err e, s)
  observed t (ok status, s) = observe t status s

  abbrev pub known_or_asked : Task → Option TaskStatus → Local V TaskStatus
  known_or_asked t (some status) s = (ok status, s)
  known_or_asked t none s = observed t (server_task_status t s)

  abbrev pub status_of_task : Result QrmiError Task → Local V TaskStatus
  status_of_task (err e) s = (err e, s)
  status_of_task (ok t) s = known_or_asked t (lookup (key t) s.0.terminal_tasks) s

  unfoldable pub task_status : Text → Local V TaskStatus
  unfolding task lookup server_task_status cancellation_recorded insert
  task_status task_id s = status_of_task (task s.0 task_id) s

  abbrev pub refused : Text → Result Text Bool → QrmiError
  refused task_id (err e) =
      QrmiError.other (note (codes "Failed to cancel task " ++ task_id ++ codes ": " ++ e))
  refused task_id (ok b) =
      QrmiError.other (note (codes "Maestro refused to cancel active task " ++ task_id))

  -- What the status after a cancellation that was not acknowledged says of it.
  abbrev pub after_refusal :
      Text → Result Text Bool → Result QrmiError TaskStatus → Result QrmiError (Unit {0})
  after_refusal task_id response (ok TaskStatus.completed) = ok tt
  after_refusal task_id response (ok TaskStatus.failed) = ok tt
  after_refusal task_id response (ok TaskStatus.cancelled) = ok tt
  after_refusal task_id response (err (QrmiError.task_not_found id)) =
      err (QrmiError.task_not_found id)
  after_refusal task_id response _ = err (refused task_id response)

  abbrev pub judged :
      Text
      → Result Text Bool
      → Result QrmiError TaskStatus × (MaestroLocal × V)
      → Result QrmiError (Unit {0}) × (MaestroLocal × V)
  judged task_id response (r, s) = (after_refusal task_id response r, s)

  abbrev pub cancelled : Task → Text → Result Text Bool → Local V (Unit {0})
  cancelled t task_id (ok true) s = (do status ← observe t TaskStatus.cancelled; return tt) s
  cancelled t task_id response s = judged task_id response (task_status task_id s)

  abbrev pub stop_unless : Task → Text → Bool → Local V (Unit {0})
  stop_unless t task_id true = return tt
  stop_unless t task_id false = do
    response ← blocking (cancel_at socket t)
    cancelled t task_id response

  abbrev pub stop : Text → Result QrmiError Task → Local V (Unit {0})
  stop task_id (err e) = throw e
  stop task_id (ok t) = do status ← task_status task_id; stop_unless t task_id (is_terminal status)

  unfoldable pub task_stop : Text → Local V (Unit {0})
  unfolding task task_status
  task_stop task_id s = stop task_id (task s.0 task_id) s

  abbrev pub results : Task → Text → TaskStatus → Local V Text
  results t task_id TaskStatus.completed = do
    ensure_task_exists socket json codec t
    answer ← blocking (get_results_as_string_at socket t)
    task_response socket json codec t (codes "Failed to get results") answer
  results t task_id status = throw (
      QrmiError.task_not_ready task_id
        (note (codes "Task is not completed (current status: " ++ status_name status ++ codes ")")))

  abbrev pub result_of : Text → Result QrmiError Task → Local V Text
  result_of task_id (err e) = throw e
  result_of task_id (ok t) = do status ← task_status task_id; results t task_id status

  unfoldable pub task_result : Text → Local V Text
  unfolding task task_status ensure_task_exists task_response
  task_result task_id s = result_of task_id (task s.0 task_id) s

  abbrev pub logs_of : Result QrmiError Task → Local V Text
  logs_of (err e) = throw e
  logs_of (ok t) = native_api (logs json socket t.session_id t.id)

  unfoldable pub task_logs : Text → Local V Text
  unfolding task
  task_logs task_id s = logs_of (task s.0 task_id) s

  unfoldable pub target : Local V Text
  target = native_api (capabilities json socket)

  unfoldable pub status : Local V ResourceStatus
  status = do status ← native_api (Request.status json socket); return (resource_status status)

  abbrev pub accessible : Response → Local V Bool
  accessible (ok_flag b) = return b
  accessible (error e) = throw (QrmiError.other (note (codes "Error pinging Maestro Local: " ++ e)))
  accessible (ok_response value) = throw (
      QrmiError.other (
        note (
          codes "Unexpected Maestro Local ping response: OkResponse("
          ++ socket.debug value
          ++ codes ")")))

  unfoldable pub is_accessible : Local V Bool
  is_accessible = do response ← blocking (send_command socket (codes "PING\n")); accessible response

  abbrev pub created : Result Text ℕ → Local V Text
  created (err e) = throw (QrmiError.other (note (codes "Failed to acquire a new session: " ++ e)))
  created (ok id) = do modify (λ s. (hold id s.0, s.1)); return (print_ℕ id)

  abbrev pub create : Local V Text
  create = do session ← blocking (new_at socket); created session

  abbrev pub kept_or_created : ℕ → Result Text Bool → Local V Text
  kept_or_created id (ok true) = return (print_ℕ id)
  kept_or_created id (ok false) = do modify (λ s. (unhold s.0, s.1)); create
  kept_or_created id (err e) =
      throw
        (QrmiError.other (note (codes "Failed to check session " ++ print_ℕ id ++ codes ": " ++ e)))

  abbrev pub acquire_from : Option ℕ → Local V Text
  acquire_from none = create
  acquire_from (some id) = do
    exists ← blocking (session_exists_at socket id)
    kept_or_created id exists

  unfoldable pub acquire : Local V Text
  acquire s = acquire_from s.0.session_id s

  abbrev pub deleted : Text → ℕ → Result Text Bool → Local V (Unit {0})
  deleted id session_id (ok true) = modify (λ s. (forget session_id s.0, s.1))
  deleted id session_id (ok false) =
      throw (QrmiError.other (note (codes "Maestro refused to delete session " ++ id)))
  deleted id session_id (err e) =
      throw (QrmiError.other (note (codes "Error deleting session " ++ id ++ codes ": " ++ e)))

  abbrev pub release_of : Text → Option ℕ → Local V (Unit {0})
  release_of id none = throw (QrmiError.invalid_input (note (codes "Invalid session ID: " ++ id)))
  release_of id (some session_id) = do
    answer ← blocking (delete_at socket session_id)
    deleted id session_id answer

  unfoldable pub release : Text → Local V (Unit {0})
  unfolding parse_u32 retain_others
  release id = release_of id (parse_u32 id)
