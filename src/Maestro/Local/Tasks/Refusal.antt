-- ===== src/Maestro/Local/Tasks/Refusal.antt =====
-- What an error of `task_start` says about the tasks of the server (src/maestro/local.rs).
use qrmi.Prelude.{ℕ, ◌≡◌, ◌≢◌, refl, inl, inr, Bool, Bool-cases, List}
use qrmi.Text.{Text, codes, eq_ignore_ascii_case}
use qrmi.Result.{Result, ok, err}
use qrmi.Exec.{Post}
use qrmi.Errors.{QrmiError, QrmiErrorKind}
use qrmi.Errors.Kinds.{kind}
use qrmi.Models.{Payload}
use qrmi.Json.{Codec}
use qrmi.Maestro.Socket.{Socket}
use qrmi.Maestro.Session.{Task, create_task_at}
use qrmi.Maestro.Request.{Json, Error, submit}
use qrmi.Maestro.Local.{MaestroLocal, native_error, native_result}
use qrmi.Maestro.Local.Tasks.Submit.{
  task_start, start_native, start_legacy, submitted, started, native_session, legacy_submission,
  submit_legacy, created, configured, configure, LegacySubmission,
}
use qrmi.Maestro.Local.Tasks.Replies.{IsServer, submit-Refused}

module _ {V Doc : Type 0} (socket : Socket V) (json : Json Doc) (codec : Codec)
    (display : QrmiError → Text) (tasks : V → List (ℕ × ℕ)) (server : IsServer socket json tasks)
    (s : MaestroLocal × V) where
  -- An error of a kind other than `Other` leaves the tasks alone.
  abbrev pub Promise : {A B : Type 0} → Result QrmiError A × (B × V) → Type 0
  Promise = Post (λ a s'. Unit {0}) (λ e s'. kind e ≢ QrmiErrorKind.other → tasks s'.1 ≡ tasks s.1)

  submitted-Promise :
      (session_id : ℕ) (o : Result Error ℕ × (Bool × V))
      → Post
          (λ a w. Unit {0})
          (λ e w. kind (native_error e) ≢ QrmiErrorKind.other → tasks w.1 ≡ tasks s.1)
          o
      → Promise (submitted socket json codec display session_id (native_result s.0 o))
  submitted-Promise session_id (ok id, w) h = tt
  submitted-Promise session_id (err e, w) h = h

  start_native-Promise :
      (input : Text) (r : Result QrmiError ℕ)
      → Promise (start_native socket json codec display input r s)
  start_native-Promise input (err e) = λ n. refl
  start_native-Promise input (ok session_id) =
      submitted-Promise session_id (submit json socket session_id input (s.0.negotiated, s.1))
        (submit-Refused socket json tasks server session_id input (s.0.negotiated, s.1))

  -- Once a task is to be created, every error is of the kind `Other`.
  abbrev IsOther : {A : Type 0} → Result QrmiError A × V → Type 0
  IsOther = Post (λ a v. Unit {0}) (λ e v. kind e ≡ QrmiErrorKind.other)

  configured-IsOther :
      (t : Task) (o : Result QrmiError (Unit {0}) × V)
      → IsOther (configured socket json codec display t o)
  unfolding kind
  configured-IsOther t (ok u, v) = tt
  configured-IsOther t (err e, v) = refl

  created-IsOther :
      (job : LegacySubmission) (o : Result Text Task × V)
      → IsOther (created socket json codec display job o)
  unfolding kind
  created-IsOther job (ok t, v) = configured-IsOther t (configure socket json codec display job t v)
  created-IsOther job (err e, v) = refl

  started-Promise :
      (o : Result QrmiError Task × V)
      → IsOther o
      → Promise (started socket json codec display s.0 o)
  started-Promise (ok t, v) h = tt
  started-Promise (err e, v) h = λ n. absurd (n h)

  start_legacy-Promise :
      (r : Result QrmiError LegacySubmission) → Promise (start_legacy socket json codec display r s)
  unfolding submit_legacy
  start_legacy-Promise (err e) = λ n. refl
  start_legacy-Promise (ok job) =
      started-Promise (submit_legacy socket json codec display job s.1)
        (created-IsOther job (create_task_at socket job.session_id s.1))

  -- On a server that creates no task when it names its capabilities, and none for a request that it
  -- refuses in API version 2: if `task_start` fails with an error of a kind other than `Other`, the
  -- server has the tasks it had. A lost, malformed or unversioned reply to a submission, and any
  -- failure after the creation of a legacy task, is never such an error.
  pub task_start-Promise :
      (payload : Payload) → Promise (task_start socket json codec display payload s)
  unfolding task_start
  task_start-Promise (Payload.maestro_local input job_type qubits sim method observables config) =
      elim (Bool-cases (eq_ignore_ascii_case job_type (codes "request"))) [
        | inl e ↦ rw e (start_native-Promise input (native_session codec s.0 input))
        | inr e ↦ rw e (
            start_legacy-Promise
              (legacy_submission codec s.0 input job_type qubits sim method observables config))
      ]
  task_start-Promise _ = λ n. refl
