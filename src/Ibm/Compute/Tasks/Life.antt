-- ===== src/Ibm/Compute/Tasks/Life.antt =====
-- A task's status, and what `task_status`, `task_result` and `task_stop` say of it.
use qrmi.Prelude.{
  ℕ, ◌+◌, ◌/◌, ◌%◌, ◌^◌, ◌≡◌, refl, ap, sym, ◌∙◌, Bool, true, false, ltb, Bool-cases, inl, inr,
}
use qrmi.Text.{Text}
use qrmi.Result.{Result, ok, err}
use qrmi.Exec.{Exec, Post, continue-Post, return, continue}
use qrmi.Errors.{QrmiError}
use qrmi.Ibm.Api.{Api, ApiError, Configuration, Job, JobStatus, ResourceKind}
use qrmi.Ibm.Compute.State.{
  Service, Token, configuration, renew, check_token, checked, fetched, called, max,
}
use qrmi.Ibm.Compute.Tasks.{
  to_task_status, is_pending, job_details, cancel_if, task_stop, task_status, result_of,
  task_result,
}

-- Nothing more happens to the task.
abbrev pub IsOver : JobStatus → Type 0
IsOver JobStatus.queued = ⊥
IsOver JobStatus.running = ⊥
IsOver JobStatus.completed = Unit {0}
IsOver JobStatus.cancelled = Unit {0}
IsOver JobStatus.cancelled_ran_too_long = Unit {0}
IsOver JobStatus.failed = Unit {0}

is_pending-IsOver : (st : JobStatus) → is_pending st ≡ false → IsOver st
is_pending-IsOver JobStatus.queued h = cc
is_pending-IsOver JobStatus.running h = cc
is_pending-IsOver JobStatus.completed h = tt
is_pending-IsOver JobStatus.cancelled h = tt
is_pending-IsOver JobStatus.cancelled_ran_too_long h = tt
is_pending-IsOver JobStatus.failed h = tt

IsOver-is_pending : (st : JobStatus) → IsOver st → is_pending st ≡ false
IsOver-is_pending JobStatus.queued h = absurd h
IsOver-is_pending JobStatus.running h = absurd h
IsOver-is_pending JobStatus.completed h = refl
IsOver-is_pending JobStatus.cancelled h = refl
IsOver-is_pending JobStatus.cancelled_ran_too_long h = refl
IsOver-is_pending JobStatus.failed h = refl

-- The service keeps a status of each task, `status_of v id` in the world `v`. Reading changes none,
-- and a task that has been cancelled is over.
pub record TaskBook {V Value Params Document : Type 0} (api : Api V Value Params Document)
    (id : Text) (status_of : V → JobStatus) : Type 0 where
  pub clock : (v : V) → status_of (api.current_unix_timestamp v).1 ≡ status_of v
  pub token :
      (key endpoint : Text) (v : V)
      → status_of (api.fetch_access_token key endpoint v).1 ≡ status_of v
  pub read :
      (c : Configuration) (v : V)
      → Post
          (λ job v'. (job.status ≡ status_of v) × (status_of v' ≡ status_of v))
          (λ e v'. status_of v' ≡ status_of v)
          (api.get_job c id v)
  pub cancel :
      (c : Configuration) (v : V)
      → Post (λ u v'. IsOver (status_of v')) (λ e v'. Unit {0}) (api.cancel_job_jid c id v)

abbrev put_token : Token → Service → Service
put_token t self = record self { token = t }

-- The service as it was but for its token.
abbrev pub Unchanged : Service → Service → Type 0
Unchanged self now = (t : Token) × (now ≡ record self { token = t })

module _ {V Value Params Document : Type 0} (api : Api V Value Params Document) (id : Text)
    (status_of : V → JobStatus) (book : TaskBook api id status_of) (self : Service)
    (st : JobStatus) where
  -- The task has the status `st`.
  abbrev At : Service × V → Type 0
  At (now, v) = Unchanged self now × (status_of v ≡ st)

  abbrev Same : Service × V → Type 0
  Same s = Unchanged self s.0

  fetched-status :
      (t : Token) (r : Result Text (Text × ℕ × ℕ)) (v : V) (old : JobStatus)
      → status_of v ≡ old
      → status_of (fetched api t (r, v)).1.1 ≡ old
  fetched-status t (ok (bearer, expiration, lifetime)) v old h = h
  fetched-status t (err e) v old h = h

  checked-status :
      (key endpoint : Text) (t : Token) (now : ℕ) (v : V)
      → status_of (checked api key endpoint t (now, v)).1.1 ≡ status_of v
  checked-status key endpoint t now v =
      let (r, v') = api.fetch_access_token key endpoint v in
      elim (Bool-cases (ltb t.expiration ((now + max 360 (t.lifetime / 10)) % 2 ^ 64))) [
        | inl e ↦ rw e (fetched-status t r v' (status_of v) (book.token key endpoint v))
        | inr e ↦ rw e
      ]

  renew-At : (s : Service × V) → At s → Post (λ u. At) (λ e. Same) (renew api s)
  unfolding renew check_token
  renew-At (now, v) ((t, e), h) =
      let (n, v') = api.current_unix_timestamp v in
      let (r, (t', v'')) = check_token api now.api_key now.iam_endpoint (now.token, v) in
      (
        (t', ap (put_token t') e),
        checked-status now.api_key now.iam_endpoint now.token n v' ∙ book.clock v ∙ h,
      )

  called-Same :
      {A : Type 0} (kind : ResourceKind) (now : Service) (r : Result ApiError A) (v : V)
      → Unchanged self now
      → Post (λ a. Same) (λ e. Same) (called api kind now (r, v))
  called-Same kind now (ok a) v h = h
  called-Same kind now (err e) v h = h

  called-job :
      (now : Service) (old : V) (r : Result ApiError Job) (v : V)
      → At (now, old)
      → Post
          (λ job v'. (job.status ≡ status_of old) × (status_of v' ≡ status_of old))
          (λ e v'. status_of v' ≡ status_of old)
          (r, v)
      → Post
          (λ job s. (job.status ≡ st) × At s)
          (λ e. Same)
          (called api ResourceKind.job now (r, v))
  called-job now old (ok job) v (h, e) (f, g) = (f ∙ e, (h, g ∙ e))
  called-job now old (err x) v (h, e) f = h

  job_details-At :
      (s : Service × V)
      → At s
      → Post (λ job s'. (job.status ≡ st) × At s') (λ e. Same) (job_details api id s)
  job_details-At (now, v) h =
      let (r, v') = api.get_job (configuration now) id v in
      called-job now v r v' h (book.read (configuration now) v)

  -- Every task method renews the token and looks the task up first.
  looked_up :
      {B : Type 0} (P : B → Service × V → Type 0) (f : Job → Exec (Service × V) QrmiError B)
      (s : Service × V)
      → ((job : Job) (s' : Service × V) → job.status ≡ st → At s' → Post P (λ e. Same) (f job s'))
      → At s
      → Post P (λ e. Same) (continue (renew api s) (λ u s'. continue (job_details api id s') f))
  looked_up P f s next h =
      continue-Post (λ u. At) P (λ e. Same) (renew api s)
        (λ u s'. continue (job_details api id s') f) (renew-At s h)
        (λ u s1 h1.
          continue-Post (λ job s2. (job.status ≡ st) × At s2) P (λ e. Same) (job_details api id s1)
            f (job_details-At s1 h1) (λ job s2 (e, h2). next job s2 e h2))

  status-At :
      (s : Service × V)
      → At s
      → Post (λ t s'. (t ≡ to_task_status st) × At s') (λ e. Same) (task_status api id s)
  unfolding task_status
  status-At s h =
      looked_up (λ t s'. (t ≡ to_task_status st) × At s')
        (λ job. return (to_task_status job.status)) s (λ job s' e h'. (ap to_task_status e, h')) h

  called-result :
      (now : Service) (r : Result ApiError Text) (v : V)
      → st ≡ JobStatus.completed
      → Unchanged self now
      → Post
          (λ t s. (st ≡ JobStatus.completed) × Same s)
          (λ e. Same)
          (called api ResourceKind.job now (r, v))
  called-result now (ok text) v e h = (e, h)
  called-result now (err x) v e h = h

  result_of-At :
      (status : JobStatus) (s : Service × V)
      → status ≡ st
      → At s
      → Post (λ t s'. (st ≡ JobStatus.completed) × Same s') (λ e. Same) (result_of api id status s)
  result_of-At JobStatus.completed (now, v) e (h, g) =
      let (r, v') = api.get_job_results_jid (configuration now) id v in
      called-result now r v' (sym e) h
  result_of-At JobStatus.queued s e h = h.0
  result_of-At _ s e h = h.0

  result-At :
      (s : Service × V)
      → At s
      → Post (λ t s'. (st ≡ JobStatus.completed) × Same s') (λ e. Same) (task_result api id s)
  unfolding task_result
  result-At s h =
      looked_up (λ t s'. (st ≡ JobStatus.completed) × Same s') (λ job. result_of api id job.status)
        s (λ job s' e h'. result_of-At job.status s' e h') h

  abbrev Stopped : Unit {0} → Service × V → Type 0
  Stopped u (now, v) = (IsOver (status_of v) × (IsOver st → status_of v ≡ st)) × Unchanged self now

  called-Stopped :
      (now : Service) (r : Result ApiError (Unit {0})) (v : V)
      → is_pending st ≡ true
      → Unchanged self now
      → Post (λ u v'. IsOver (status_of v')) (λ e v'. Unit {0}) (r, v)
      → Post Stopped (λ e. Same) (called api ResourceKind.job now (r, v))
  called-Stopped now (ok u) v p h f =
      ((f, λ over. let calm = IsOver-is_pending st over in absurd (cc (p, calm))), h)
  called-Stopped now (err x) v p h f = h

  cancel_if-Stopped :
      (pending : Bool) (s : Service × V)
      → pending ≡ is_pending st
      → At s
      → Post Stopped (λ e. Same) (cancel_if api id pending s)
  cancel_if-Stopped true (now, v) e (h, g) =
      let (r, v') = api.cancel_job_jid (configuration now) id v in
      called-Stopped now r v' (sym e) h (book.cancel (configuration now) v)
  cancel_if-Stopped false (now, v) e (h, g) =
      ((is_pending-IsOver (status_of v) (ap is_pending g ∙ sym e), λ over. g), h)

  stop-Stopped : (s : Service × V) → At s → Post Stopped (λ e. Same) (task_stop api id s)
  unfolding task_stop
  stop-Stopped s h =
      looked_up Stopped (λ job. cancel_if api id (is_pending job.status)) s
        (λ job s' e h'. cancel_if-Stopped (is_pending job.status) s' (ap is_pending e) h') h

module _ {V Value Params Document : Type 0} (api : Api V Value Params Document) (id : Text)
    (status_of : V → JobStatus) (book : TaskBook api id status_of) (self : Service) (v : V) where
  -- The status that `task_status` returns is that of the task, and does not change it; whether it
  -- fails or not, of the service only the token may have changed.
  task_status-status_of :
      Post
        (λ t s.
          (t ≡ to_task_status (status_of v)) × (Unchanged self s.0 × (status_of s.1 ≡ status_of v)))
        (λ e s. Unchanged self s.0)
        (task_status api id (self, v))
  task_status-status_of =
      status-At api id status_of book self (status_of v) (self, v) ((self.token, refl), refl)

  -- A result is only ever returned of a task that was completed when it was asked for; whether
  -- `task_result` fails or not, of the service only the token may have changed.
  pub task_result-completed :
      Post
        (λ text s. (status_of v ≡ JobStatus.completed) × Unchanged self s.0)
        (λ e s. Unchanged self s.0)
        (task_result api id (self, v))
  task_result-completed =
      result-At api id status_of book self (status_of v) (self, v) ((self.token, refl), refl)

  -- On a service where a task that was cancelled is over: once `task_stop` has returned without an
  -- error the task is neither running nor queued, and if it was over before it has the status that it
  -- had; whether it fails or not, of the service only the token may have changed.
  pub task_stop_ends :
      Post
        (λ u s.
          (IsOver (status_of s.1) × (IsOver (status_of v) → status_of s.1 ≡ status_of v))
          × Unchanged self s.0)
        (λ e s. Unchanged self s.0)
        (task_stop api id (self, v))
  task_stop_ends =
      stop-Stopped api id status_of book self (status_of v) (self, v) ((self.token, refl), refl)
