-- ===== src/Maestro/Local/Tasks/Ids.antt =====
-- The names of the tasks that the resource of Maestro Local starts (src/maestro/local.rs).
use qrmi.Prelude.{
  ℕ, ◌≡◌, refl, ◌∙◌, ap, sym, inl, inr, none, some, Bool, Bool-cases, not, ◌||◌, ◌==◌, is_empty,
}
use qrmi.Text.{Text, codes, trim, print_ℕ, eq_ignore_ascii_case}
use qrmi.Text.Printing.{parse_u32-print_ℕ}
use qrmi.Result.{Result, ok, err, Holds, bind-Holds, Holds-refl}
use qrmi.Exec.{Post}
use qrmi.Errors.{QrmiError}
use qrmi.Models.{Payload}
use qrmi.Json.{Codec, is_object}
use qrmi.Maestro.Socket.{Socket}
use qrmi.Maestro.Session.{Task, create_task_at}
use qrmi.Maestro.Request.{Json, Error, submit}
use qrmi.Maestro.Local.{MaestroLocal, lookup, task, key, get_session_id, native_result}
use qrmi.Maestro.Local.Tasks.Cache.{lookup-remove, same_task_refl}
use qrmi.Maestro.Local.Tasks.Answers.{
  IsWord, Answer, Numbered, submit-Numbered, Created, create_task_at-Created,
}
use qrmi.Maestro.Local.Tasks.Submit.{
  task_start, start_native, start_legacy, submitted, started, begun, native_session,
  legacy_submission, submit_legacy, created, configured, configure, LegacySubmission, read_json,
  guard, is_request, task_type_of,
}

lookup-remove_self :
    (self : MaestroLocal) (t : Task) → lookup (key t) (begun t self).terminal_tasks ≡ none
lookup-remove_self self t =
    rw (lookup-remove (key t) (key t) self.terminal_tasks, same_task_refl (key t)) refl

task-print_ℕ :
    (self : MaestroLocal) (t : Task)
    → get_session_id self ≡ ok t.session_id
    → IsWord t.id
    → task (begun t self) (print_ℕ t.id) ≡ ok t
unfolding task get_session_id
task-print_ℕ self t e w = rw (parse_u32-print_ℕ t.id w, e) refl

-- The name is that of a task in the session held, which the server answered with, and which was not
-- seen to end.
pub record Names {V Doc : Type 0} (socket : Socket V) (json : Json Doc) (id : Text)
    (self : MaestroLocal) : Type 0 where
  pub task_named : Task
  pub named : task self id ≡ ok task_named
  pub answered : Answer socket json task_named
  pub unended : lookup (key task_named) self.terminal_tasks ≡ none

begun-Names :
    {V Doc : Type 0} (socket : Socket V) (json : Json Doc) (self : MaestroLocal) (t : Task)
    → get_session_id self ≡ ok t.session_id
    → IsWord t.id
    → Answer socket json t
    → Names socket json (print_ℕ t.id) (begun t self)
begun-Names socket json self t e w a = record {
  task_named = t;
  named = task-print_ℕ self t e w;
  answered = a;
  unended = lookup-remove_self self t;
}

module _ (codec : Codec) (self : MaestroLocal) where
  native_session-Holds :
      (input : Text) → Holds (λ id. get_session_id self ≡ ok id) (native_session codec self input)
  unfolding native_session
  native_session-Holds input =
      bind-Holds _ (read_json codec input (codec.from_str input)) _ (λ request e.
        bind-Holds _ (guard (is_request request) _) _
          (λ u e'. Holds-refl _ (get_session_id self) (λ id e''. e'')))

  legacy_submission-Holds :
      (input job_type observables config : Text) (qubits sim method : ℕ)
      → Holds
          (λ (job : LegacySubmission). get_session_id self ≡ ok job.session_id)
          (legacy_submission codec self input job_type qubits sim method observables config)
  unfolding legacy_submission
  legacy_submission-Holds input job_type observables config qubits sim method =
      bind-Holds _ (task_type_of job_type observables) _ (λ task_type e.
        bind-Holds _ (guard (not (is_empty (trim input) || qubits == 0)) _) _ (λ u e.
          bind-Holds _ (read_json codec config (codec.from_str config)) _ (λ options e.
            bind-Holds _ (guard (is_object options) _) _
              (λ u e. bind-Holds _ (get_session_id self) _ (λ id e. e)))))

-- Whatever is started is named so.
abbrev pub Named :
    {V Doc : Type 0} → Socket V → Json Doc → Result QrmiError Text × (MaestroLocal × V) → Type 0
Named socket json = Post (λ id s. Names socket json id s.0) (λ e s. Unit {0})

module _ {V Doc : Type 0} (socket : Socket V) (json : Json Doc) (codec : Codec)
    (display : QrmiError → Text)
    (as_u32_word : (d : Doc) (n : ℕ) → json.as_u32 d ≡ some n → IsWord n) where
  submitted-Named :
      (self : MaestroLocal) (session_id : ℕ) (o : Result Error ℕ × (Bool × V))
      → get_session_id self ≡ ok session_id
      → Numbered socket json session_id o
      → Named socket json (submitted socket json codec display session_id (native_result self o))
  unfolding get_session_id
  submitted-Named self session_id (ok id, w) h n =
      begun-Names socket json (record self { negotiated = w.0 })
        (record { id = id; session_id = session_id }) h n.0 n.1
  submitted-Named self session_id (err e, w) h n = tt

  start_native-Named :
      (s : MaestroLocal × V) (input : Text) (r : Result QrmiError ℕ)
      → Holds (λ id. get_session_id s.0 ≡ ok id) r
      → Named socket json (start_native socket json codec display input r s)
  start_native-Named s input (ok session_id) h =
      submitted-Named s.0 session_id (submit json socket session_id input (s.0.negotiated, s.1)) h
        (submit-Numbered socket json as_u32_word session_id input (s.0.negotiated, s.1))
  start_native-Named s input (err e) h = tt

  configured-Named :
      (self : MaestroLocal) (t : Task) (o : Result QrmiError (Unit {0}) × V)
      → get_session_id self ≡ ok t.session_id
      → IsWord t.id
      → Answer socket json t
      → Named socket json
          (started socket json codec display self (configured socket json codec display t o))
  configured-Named self t (ok u, v) h n a = begun-Names socket json self t h n a
  configured-Named self t (err e, v) h n a = tt

  created-Named :
      (self : MaestroLocal) (job : LegacySubmission) (o : Result Text Task × V)
      → get_session_id self ≡ ok job.session_id
      → Created socket json job.session_id o.0
      → Named socket json
          (started socket json codec display self (created socket json codec display job o))
  created-Named self job (ok t, v) h (same, n, a) =
      configured-Named self t (configure socket json codec display job t v) (h ∙ ap ok (sym same)) n
        a
  created-Named self job (err e, v) h c = tt

  start_legacy-Named :
      (s : MaestroLocal × V) (r : Result QrmiError LegacySubmission)
      → Holds (λ (job : LegacySubmission). get_session_id s.0 ≡ ok job.session_id) r
      → Named socket json (start_legacy socket json codec display r s)
  unfolding submit_legacy
  start_legacy-Named s (ok job) h =
      created-Named s.0 job (create_task_at socket job.session_id s.1) h
        (create_task_at-Created socket json job.session_id s.1)
  start_legacy-Named s (err e) h = tt

  -- The name that `task_start` returns is read back by the other methods as a task in the session that
  -- the resource holds, whose number the server gave in its reply to a native submission to that
  -- session, or to the command that creates a task in it; and the resource does not take it for one
  -- that has ended. Numbers of the JSON library's `as_u32` have 32 bits.
  pub task_start-Names :
      (payload : Payload) (s : MaestroLocal × V)
      → Named socket json (task_start socket json codec display payload s)
  unfolding task_start
  task_start-Names (Payload.maestro_local input job_type qubits sim method observables config) s =
      elim (Bool-cases (eq_ignore_ascii_case job_type (codes "request"))) [
        | inl e ↦ rw e (
            start_native-Named s input (native_session codec s.0 input)
              (native_session-Holds codec s.0 input))
        | inr e ↦ rw e (
            start_legacy-Named s
              (legacy_submission codec s.0 input job_type qubits sim method observables config)
              (legacy_submission-Holds codec s.0 input job_type observables config qubits sim
                method))
      ]
  task_start-Names _ s = tt
