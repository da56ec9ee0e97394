-- ===== src/Maestro/Local/Tasks/Ends.antt =====
-- What starts tasks or changes the session leaves only ended tasks in the map
-- (src/maestro/local.rs).
use qrmi.Prelude.{
  ℕ, ◌≡◌, inl, inr, true, false, Option, none, some, Bool, Bool-cases, [], ◌∷◌, ◌==◌, if◌then◌else◌,
  arith,
}
use qrmi.Text.{Text, codes, eq_ignore_ascii_case}
use qrmi.Result.{Result, ok, err}
use qrmi.Errors.{QrmiError}
use qrmi.Models.{TaskStatus, Payload}
use qrmi.Json.{Codec}
use qrmi.Maestro.Socket.{Socket}
use qrmi.Maestro.Session.{Task, session_exists_at, new_at, delete_at}
use qrmi.Maestro.Request.{Json, submit}
use qrmi.Maestro.Local.{
  MaestroLocal, TerminalTasks, fresh, lookup, remove, retain_others, key, native_api,
}
use qrmi.Maestro.Local.Tasks.{
  acquire_from, kept_or_created, created, create, release_of, deleted, forget, unhold,
}
use qrmi.Maestro.Local.Tasks.Submit.{
  task_start, start_native, start_legacy, submitted, started, begun, native_session,
  legacy_submission, submit_legacy, LegacySubmission,
}
use qrmi.Maestro.Local.Tasks.Cache.{Still, native_api-Still, lookup-remove}
use qrmi.Maestro.Local.Tasks.Later.{HoldsEnds, Later-Quiet}

remove-HoldsEnds :
    (k j : ℕ × ℕ) (st : TaskStatus) (tasks : TerminalTasks)
    → lookup j (remove k tasks) ≡ some st
    → lookup j tasks ≡ some st
remove-HoldsEnds k j st tasks h = ground (arith, lookup-remove k j tasks)

lookup-retain_others :
    (session : ℕ) (j : ℕ × ℕ) (tasks : TerminalTasks)
    → lookup j (retain_others session tasks) ≡ (if j.0 == session then none else lookup j tasks)
unfolding lookup retain_others
lookup-retain_others session (a, b) [] = ground arith
lookup-retain_others session (a, b) (((c, d), st) ∷ tasks) =
    ground (arith, lookup-retain_others session (a, b) tasks)

retain_others-HoldsEnds :
    (session : ℕ) (j : ℕ × ℕ) (st : TaskStatus) (tasks : TerminalTasks)
    → lookup j (retain_others session tasks) ≡ some st
    → lookup j tasks ≡ some st
retain_others-HoldsEnds session (a, b) st tasks h =
    ground (arith, lookup-retain_others session (a, b) tasks)

pub fresh-HoldsEnds : (name path : Text) (id : Option ℕ) → HoldsEnds (fresh name path id)
unfolding lookup
fresh-HoldsEnds name path id k st e = cc

begun-HoldsEnds : (t : Task) (self : MaestroLocal) → HoldsEnds self → HoldsEnds (begun t self)
begun-HoldsEnds t self h k st e = h k st (remove-HoldsEnds (key t) k st self.terminal_tasks e)

forget-HoldsEnds : (id : ℕ) (self : MaestroLocal) → HoldsEnds self → HoldsEnds (forget id self)
forget-HoldsEnds id self h k st e = h k st (retain_others-HoldsEnds id k st self.terminal_tasks e)

unhold-HoldsEnds : (self : MaestroLocal) → HoldsEnds (unhold self)
unfolding lookup
unhold-HoldsEnds self k st e = cc

module _ {V Doc : Type 0} (socket : Socket V) (json : Json Doc) (codec : Codec)
    (display : QrmiError → Text) where
  -- What the methods that start tasks or change the session leave behind.
  module _ (v : V) where
    created-HoldsEnds :
        (self : MaestroLocal) (answer : Result Text ℕ)
        → HoldsEnds self
        → HoldsEnds (created socket json codec answer (self, v)).1.0
    created-HoldsEnds self (ok id) h = h
    created-HoldsEnds self (err e) h = h

  create-HoldsEnds :
      (self : MaestroLocal) (v : V)
      → HoldsEnds self
      → HoldsEnds (create socket json codec (self, v)).1.0
  create-HoldsEnds self v h = created-HoldsEnds (new_at socket v).1 self (new_at socket v).0 h

  kept_or_created-HoldsEnds :
      (self : MaestroLocal) (v : V) (id : ℕ) (answer : Result Text Bool)
      → HoldsEnds self
      → HoldsEnds (kept_or_created socket json codec id answer (self, v)).1.0
  kept_or_created-HoldsEnds self v id (ok true) h = h
  kept_or_created-HoldsEnds self v id (ok false) h =
      create-HoldsEnds (unhold self) v (unhold-HoldsEnds self)
  kept_or_created-HoldsEnds self v id (err e) h = h

  pub acquire_from-HoldsEnds :
      (self : MaestroLocal) (v : V) (held : Option ℕ)
      → HoldsEnds self
      → HoldsEnds (acquire_from socket json codec held (self, v)).1.0
  acquire_from-HoldsEnds self v none h = create-HoldsEnds self v h
  acquire_from-HoldsEnds self v (some id) h =
      kept_or_created-HoldsEnds self (session_exists_at socket id v).1 id
        (session_exists_at socket id v).0 h

  deleted-HoldsEnds :
      (self : MaestroLocal) (v : V) (id : Text) (session_id : ℕ) (answer : Result Text Bool)
      → HoldsEnds self
      → HoldsEnds (deleted socket json codec id session_id answer (self, v)).1.0
  deleted-HoldsEnds self v id session_id (ok true) h = forget-HoldsEnds session_id self h
  deleted-HoldsEnds self v id session_id (ok false) h = h
  deleted-HoldsEnds self v id session_id (err e) h = h

  pub release_of-HoldsEnds :
      (self : MaestroLocal) (v : V) (id : Text) (session_id : Option ℕ)
      → HoldsEnds self
      → HoldsEnds (release_of socket json codec id session_id (self, v)).1.0
  release_of-HoldsEnds self v id none h = h
  release_of-HoldsEnds self v id (some session_id) h =
      deleted-HoldsEnds self (delete_at socket session_id v).1 id session_id
        (delete_at socket session_id v).0 h

  submitted-HoldsEnds :
      (self : MaestroLocal) (session_id : ℕ) (o : Result QrmiError ℕ × (MaestroLocal × V))
      → HoldsEnds self
      → Still self o
      → HoldsEnds (submitted socket json codec display session_id o).1.0
  submitted-HoldsEnds self session_id (ok id, s) h q =
      begun-HoldsEnds (record { id = id; session_id = session_id }) s.0
        (Later-Quiet self s.0 h q).ends
  submitted-HoldsEnds self session_id (err e, s) h q = (Later-Quiet self s.0 h q).ends

  start_native-HoldsEnds :
      (s : MaestroLocal × V) (input : Text) (r : Result QrmiError ℕ)
      → HoldsEnds s.0
      → HoldsEnds (start_native socket json codec display input r s).1.0
  start_native-HoldsEnds s input (err e) h = h
  start_native-HoldsEnds s input (ok id) h =
      submitted-HoldsEnds s.0 id (native_api (submit json socket id input) s) h
        (native_api-Still (submit json socket id input) s)

  started-HoldsEnds :
      (self : MaestroLocal) (o : Result QrmiError Task × V)
      → HoldsEnds self
      → HoldsEnds (started socket json codec display self o).1.0
  started-HoldsEnds self (ok t, v) h = begun-HoldsEnds t self h
  started-HoldsEnds self (err e, v) h = h

  start_legacy-HoldsEnds :
      (s : MaestroLocal × V) (r : Result QrmiError LegacySubmission)
      → HoldsEnds s.0
      → HoldsEnds (start_legacy socket json codec display r s).1.0
  start_legacy-HoldsEnds s (ok job) h =
      started-HoldsEnds s.0 (submit_legacy socket json codec display job s.1) h
  start_legacy-HoldsEnds s (err e) h = h

  pub task_start-HoldsEnds :
      (payload : Payload) (s : MaestroLocal × V)
      → HoldsEnds s.0
      → HoldsEnds (task_start socket json codec display payload s).1.0
  unfolding task_start
  task_start-HoldsEnds (Payload.maestro_local input job_type qubits sim method observables config) s
        h =
      elim (Bool-cases (eq_ignore_ascii_case job_type (codes "request"))) [
        | inl e ↦ rw e (start_native-HoldsEnds s input (native_session codec s.0 input) h)
        | inr e ↦ rw e (
            start_legacy-HoldsEnds s
              (legacy_submission codec s.0 input job_type qubits sim method observables config) h)
      ]
  task_start-HoldsEnds _ s h = h
