-- ===== src/Maestro/Local/Tasks/Cache.antt =====
-- The map of the tasks that were seen to end, and which calls leave it alone (src/maestro/local.rs).
use qrmi.Prelude.{
  ℕ, ◌≡◌, refl, ◌∙◌, Bool, true, false, none, some, [], ◌∷◌, if◌then◌else◌, arith, ==_iff,
}
use qrmi.Text.{Text, codes}
use qrmi.Result.{Result, ok, err}
use qrmi.Exec.{Exec, Post, continue, continue-Post}
use qrmi.Errors.{QrmiError}
use qrmi.Models.{TaskStatus}
use qrmi.Json.{Codec}
use qrmi.Maestro.Socket.{Socket}
use qrmi.Maestro.Session.{Task}
use qrmi.Maestro.Request.{Json, Error}
use qrmi.Maestro.Local.{
  MaestroLocal, TerminalTasks, Local, same_task, lookup, remove, insert, task, native_api,
  native_result, ensure_task_exists, task_response, cancellation_recorded, existing, recorded, logs,
}
use qrmi.Maestro.Local.Tasks.{server_task_status, unless_failed, unless_finished, failed_at}

pub same_task_refl : (k : ℕ × ℕ) → same_task k k ≡ true
same_task_refl (a, b) = rw ((==_iff a a).1 refl, (==_iff b b).1 refl)

pub lookup-remove :
    (k j : ℕ × ℕ) (tasks : TerminalTasks)
    → lookup j (remove k tasks) ≡ (if same_task k j then none else lookup j tasks)
unfolding lookup remove
lookup-remove (a, b) (c, d) [] = ground arith
lookup-remove (a, b) (c, d) (((e, f), status) ∷ tasks) =
    ground (arith, lookup-remove (a, b) (c, d) tasks)

pub lookup-insert :
    (k j : ℕ × ℕ) (status : TaskStatus) (tasks : TerminalTasks)
    → lookup j (insert k status tasks) ≡ (if same_task k j then some status else lookup j tasks)
unfolding lookup insert
lookup-insert (a, b) (c, d) status tasks = ground (arith, lookup-remove (a, b) (c, d) tasks)

pub same_task-eq : (k j : ℕ × ℕ) → same_task k j ≡ true → k ≡ j
same_task-eq (a, b) (c, d) h = ground arith

pub lookup-insert_self :
    (k : ℕ × ℕ) (status : TaskStatus) (tasks : TerminalTasks)
    → lookup k (insert k status tasks) ≡ some status
lookup-insert_self k status tasks = rw (lookup-insert k k status tasks, same_task_refl k)

-- Only the flag of the client may differ.
pub record Quiet (self self' : MaestroLocal) : Type 0 where
  pub name : self'.backend_name ≡ self.backend_name
  pub session : self'.session_id ≡ self.session_id
  pub tasks : self'.terminal_tasks ≡ self.terminal_tasks

pub Quiet-refl : (self : MaestroLocal) → Quiet self self
Quiet-refl self = record { name = refl; session = refl; tasks = refl }

pub Quiet-trans : (a b c : MaestroLocal) → Quiet a b → Quiet b c → Quiet a c
Quiet-trans a b c p q = record {
  name = q.name ∙ p.name;
  session = q.session ∙ p.session;
  tasks = q.tasks ∙ p.tasks;
}

pub task-Quiet :
    (self self' : MaestroLocal) (task_id : Text)
    → Quiet self self'
    → task self' task_id ≡ task self task_id
unfolding task
task-Quiet self self' task_id q = rw (q.name, q.session)

module _ {V : Type 0} (self : MaestroLocal) where
  abbrev pub Still : {A : Type 0} → Result QrmiError A × (MaestroLocal × V) → Type 0
  Still = Post (λ a s. Quiet self s.0) (λ e s. Quiet self s.0)

  pub continue-Still :
      {A B : Type 0} (o : Result QrmiError A × (MaestroLocal × V)) (f : A → Local V B)
      → Still o
      → ((a : A) (s : MaestroLocal × V) → Quiet self s.0 → Still (f a s))
      → Still (continue o f)
  continue-Still o f h k =
      continue-Post (λ a s. Quiet self s.0) (λ a s. Quiet self s.0) (λ e s. Quiet self s.0) o f h k

  pub after :
      {A : Type 0} (o : Result QrmiError A × (MaestroLocal × V)) → Still o → Quiet self o.1.0
  after (ok a, s) h = h
  after (err e, s) h = h

  native-Still : {A : Type 0} (o : Result Error A × (Bool × V)) → Still (native_result self o)
  native-Still (ok a, w) = record { name = refl; session = refl; tasks = refl }
  native-Still (err e, w) = record { name = refl; session = refl; tasks = refl }

pub Still-trans :
    {V A : Type 0} (self self' : MaestroLocal) (o : Result QrmiError A × (MaestroLocal × V))
    → Quiet self self'
    → Still self' o
    → Still self o
Still-trans self self' (ok a, s) q h = Quiet-trans self self' s.0 q h
Still-trans self self' (err e, s) q h = Quiet-trans self self' s.0 q h

pub native_api-Still :
    {V A : Type 0} (operation : Exec (Bool × V) Error A) (s : MaestroLocal × V)
    → Still s.0 (native_api operation s)
native_api-Still operation s = native-Still s.0 (operation (s.0.negotiated, s.1))

module _ {V Doc : Type 0} (socket : Socket V) (json : Json Doc) (codec : Codec)
    (self : MaestroLocal) where
  pub task_response-Still :
      {T : Type 0} (t : Task) (operation : Text) (response : Result Text T) (s : MaestroLocal × V)
      → Quiet self s.0
      → Still self (task_response socket json codec t operation response s)
  unfolding task_response
  task_response-Still t operation (ok value) s q = q
  task_response-Still t operation (err e) s q = q

  existing-Still :
      (t : Task) (answer : Result Text Bool) (s : MaestroLocal × V)
      → Quiet self s.0
      → Still self (existing socket json codec t answer s)
  existing-Still t (ok true) s q = q
  existing-Still t (ok false) s q = q
  existing-Still t (err e) s q = q

  pub ensure_task_exists-Still :
      (t : Task) (s : MaestroLocal × V)
      → Quiet self s.0
      → Still self (ensure_task_exists socket json codec t s)
  unfolding ensure_task_exists
  ensure_task_exists-Still t s q = existing-Still t _ _ q

  unless_finished-Still :
      (t : Task) (finished : Bool) (s : MaestroLocal × V)
      → Quiet self s.0
      → Still self (unless_finished socket json codec t finished s)
  unless_finished-Still t true s q =
      continue-Still self _ _ (task_response-Still t _ _ _ q) (λ failed s' q'. q')
  unless_finished-Still t false s q =
      continue-Still self _ _ (task_response-Still t _ _ _ q) (λ running s' q'. q')

  unless_failed-Still :
      (t : Task) (failed : Bool) (s : MaestroLocal × V)
      → Quiet self s.0
      → Still self (unless_failed socket json codec t failed s)
  unless_failed-Still t true s q = q
  unless_failed-Still t false s q =
      continue-Still self _ _ (task_response-Still t _ _ _ q)
        (λ finished s' q'. unless_finished-Still t finished s' q')

  pub server_task_status-Still :
      (t : Task) (s : MaestroLocal × V)
      → Quiet self s.0
      → Still self (server_task_status socket json codec t s)
  unfolding server_task_status
  server_task_status-Still t s q =
      continue-Still self _ _ (ensure_task_exists-Still t s q) (λ u s' q'.
        continue-Still self _ _
          (task_response-Still t (codes "Failed to get failure status") (failed_at socket t s'.1).0
            (s'.0, (failed_at socket t s'.1).1) q')
          (λ failed s'' q''. unless_failed-Still t failed s'' q''))

recorded-Still :
    {V Doc : Type 0} (socket : Socket V) (json : Json Doc) (codec : Codec) (self : MaestroLocal)
    (o : Result QrmiError Text × (MaestroLocal × V))
    → Still self o
    → Still self (recorded socket json codec o)
recorded-Still socket json codec self (ok t, s) h = h
recorded-Still socket json codec self (err e, s) h = h

pub cancellation_recorded-Still :
    {V Doc : Type 0} (socket : Socket V) (json : Json Doc) (codec : Codec) (t : Task)
    (s : MaestroLocal × V)
    → Still s.0 (cancellation_recorded socket json codec t s)
unfolding cancellation_recorded
cancellation_recorded-Still socket json codec t s =
    recorded-Still socket json codec s.0 (native_api (logs json socket t.session_id t.id) s)
      (native_api-Still (logs json socket t.session_id t.id) s)
