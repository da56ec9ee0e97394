-- ===== src/Ibm/System/Tasks/Stop.antt =====
-- Which requests `task_stop` of an IBM Quantum System makes.
use qrmi.Prelude.{◌≡◌, ◌≢◌, ◌⊎◌, ap, sym, ◌∙◌, inl, inr, Bool, false, List, ◌∷◌}
use qrmi.Text.{Text}
use qrmi.Result.{Result, ok, err}
use qrmi.Exec.{Post, continue-Post}
use qrmi.Settings.{Env}
use qrmi.Ibm.System.Api.{SystemApi, SystemError, SystemJobStatus}
use qrmi.Ibm.System.{System}
use qrmi.Ibm.System.Tasks.{task_stop, cancel_if, is_running, converted, call}

pub data Request : Type 0 where
  status_asked cancelled deleted : Text → Request

-- What the service was asked, the last request first, and the status of a task.
pub record IsLog {V Client Value : Type 0} (api : SystemApi V Client Value) (log : V → List Request)
    (status_of : V → Text → SystemJobStatus) : Type 0 where
  pub status :
      (c : Client) (id : Text) (v : V)
      → Post
          (λ st w. (st ≡ status_of v id) × (log w ≡ status_asked id ∷ log v))
          (λ e w. log w ≡ status_asked id ∷ log v)
          (api.get_job_status c id v)
  pub cancel :
      (c : Client) (id : Text) (b : Bool) (v : V)
      → log (api.cancel_job c id b v).1 ≡ cancelled id ∷ log v
  pub delete : (c : Client) (id : Text) (v : V) → log (api.delete_job c id v).1 ≡ deleted id ∷ log v

module _ {V Client Value : Type 0} (api : SystemApi V Client Value) (log : V → List Request)
    (status_of : V → Text → SystemJobStatus) (is_log : IsLog api log status_of) (env : Env)
    (self : System Client) (id : Text) (v : V) where
  -- A running task was cancelled and then deleted, another was deleted.
  abbrev pub Deleted : V → Type 0
  Deleted w =
      ((status_of v id ≡ SystemJobStatus.running)
        × (log w ≡ deleted id ∷ cancelled id ∷ status_asked id ∷ log v))
      ⊎ ((status_of v id ≢ SystemJobStatus.running)
          × (log w ≡ deleted id ∷ status_asked id ∷ log v))

  abbrev Ready : V → Type 0
  Ready w =
      ((status_of v id ≡ SystemJobStatus.running)
        × (log w ≡ cancelled id ∷ status_asked id ∷ log v))
      ⊎ ((status_of v id ≢ SystemJobStatus.running) × (log w ≡ status_asked id ∷ log v))

  -- The status could not be read, and nothing else was asked, or the task was deleted.
  abbrev pub Asked : V → Type 0
  Asked w = (log w ≡ status_asked id ∷ log v) ⊎ Deleted w

  asked :
      (r : Result SystemError SystemJobStatus) (w : V)
      → Post
          (λ st w. (st ≡ status_of v id) × (log w ≡ status_asked id ∷ log v))
          (λ e w. log w ≡ status_asked id ∷ log v)
          (r, w)
      → Post
          (λ st w. (st ≡ status_of v id) × (log w ≡ status_asked id ∷ log v))
          (λ e w. Asked w)
          (converted api env self (r, w))
  asked (ok st) w h = h
  asked (err e) w h = inl h

  ready :
      (st : SystemJobStatus) (w : V)
      → st ≡ status_of v id
      → log w ≡ status_asked id ∷ log v
      → Post (λ u. Ready) (λ e. Asked) (cancel_if api env self id (is_running st) w)
  ready SystemJobStatus.running w e h =
      inl (sym e, is_log.cancel self.api_client id false w ∙ ap (λ l. cancelled id ∷ l) h)
  ready SystemJobStatus.completed w e h = inr (λ r. cc, h)
  ready SystemJobStatus.failed w e h = inr (λ r. cc, h)
  ready SystemJobStatus.cancelled w e h = inr (λ r. cc, h)

  gone : (w w' : V) → log w' ≡ deleted id ∷ log w → Ready w → Deleted w'
  gone w w' d (inl (r, h)) = inl (r, d ∙ ap (λ l. deleted id ∷ l) h)
  gone w w' d (inr (r, h)) = inr (r, d ∙ ap (λ l. deleted id ∷ l) h)

  either :
      (r : Result SystemError (Unit {0})) (w : V)
      → Deleted w
      → Post (λ u. Deleted) (λ e. Asked) (converted api env self (r, w))
  either (ok u) w h = h
  either (err e) w h = inr h

  -- `task_stop` asks for the status; a task that runs is then cancelled and deleted, whatever became
  -- of the cancellation, and another is deleted and not cancelled. If the status cannot be read, it
  -- asks for nothing else.
  pub task_stop_deletes : Post (λ u. Deleted) (λ e. Asked) (task_stop api env self id v)
  unfolding task_stop
  task_stop_deletes =
      let (r, w) = api.get_job_status self.api_client id v in
      continue-Post (λ st w. (st ≡ status_of v id) × (log w ≡ status_asked id ∷ log v))
        (λ u. Deleted) (λ e. Asked) (call api env self (api.get_job_status self.api_client id) v) _
        (asked r w (is_log.status self.api_client id v))
        (λ st w (e, h).
          continue-Post (λ u. Ready) (λ u. Deleted) (λ e. Asked)
            (cancel_if api env self id (is_running st) w) _ (ready st w e h)
            (λ u w' g.
              let (r', w'') = api.delete_job self.api_client id w' in
              either r' w'' (gone w' w'' (is_log.delete self.api_client id w') g)))
