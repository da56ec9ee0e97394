-- ===== src/Maestro/Local/Tasks/Ahead.antt =====
-- The methods after which every task that was seen to end is still remembered
-- (src/maestro/local.rs).
use qrmi.Prelude.{inl, inr}
use qrmi.Text.{Text, codes}
use qrmi.Result.{Result, ok, err, Result-cases}
use qrmi.Exec.{Post, continue-Post, weaken-Post}
use qrmi.Errors.{QrmiError}
use qrmi.Models.{TaskStatus}
use qrmi.Json.{Codec}
use qrmi.Maestro.Socket.{Socket, Response, ok_flag, error, ok_response, send_command}
use qrmi.Maestro.Session.{Task, get_results_as_string_at}
use qrmi.Maestro.Request.{Json, logs, capabilities, Status}
use qrmi.Maestro.Local.{MaestroLocal, task, native_api}
use qrmi.Maestro.Local.Tasks.{
  task_status, task_stop, task_result, task_logs, target, status, is_accessible, results,
  accessible, resource_status,
}
use qrmi.Maestro.Local.Tasks.Cache.{
  Quiet-refl, Still, native_api-Still, ensure_task_exists-Still, task_response-Still,
  continue-Still,
}
use qrmi.Maestro.Local.Tasks.Later.{
  HoldsEnds, Later, Later-Quiet, Later-trans, Reported, Stopped, task_status-Answered,
  task_stop-Stops,
}
use qrmi.Maestro.Request

module _ {V : Type 0} (self : MaestroLocal) where
  abbrev pub Ahead : {A : Type 0} → Result QrmiError A × (MaestroLocal × V) → Type 0
  Ahead = Post (λ a s. Later self s.0) (λ e s. Later self s.0)

  pub Ahead-after :
      {A : Type 0} (o : Result QrmiError A × (MaestroLocal × V)) → Ahead o → Later self o.1.0
  Ahead-after (ok a, s) h = h
  Ahead-after (err e, s) h = h

  pub Still-Ahead :
      {A : Type 0} (o : Result QrmiError A × (MaestroLocal × V))
      → HoldsEnds self
      → Still self o
      → Ahead o
  Still-Ahead (ok a, s) h q = Later-Quiet self s.0 h q
  Still-Ahead (err e, s) h q = Later-Quiet self s.0 h q

  from_Later :
      {A : Type 0} (self' : MaestroLocal) (o : Result QrmiError A × (MaestroLocal × V))
      → Later self self'
      → Still self' o
      → Ahead o
  from_Later self' (ok a, s) l q = Later-trans self self' s.0 l (Later-Quiet self' s.0 l.ends q)
  from_Later self' (err e, s) l q = Later-trans self self' s.0 l (Later-Quiet self' s.0 l.ends q)

module _ {V Doc : Type 0} (socket : Socket V) (json : Json Doc) (codec : Codec)
    (s : MaestroLocal × V) (h : HoldsEnds s.0) where
  pub task_status-Ahead : (task_id : Text) → Ahead s.0 (task_status socket json codec task_id s)
  task_status-Ahead task_id = elim (Result-cases (task s.0 task_id)) [
    | inl (t, e) ↦
        weaken-Post (λ st s'. Reported t s.0 st s'.0) (λ st s'. Later s.0 s'.0)
          (λ m s'. Later s.0 s'.0) (λ m s'. Later s.0 s'.0)
          (task_status socket json codec task_id s) (λ st s' r. r.later) (λ m s' l. l)
          (task_status-Answered socket json codec task_id t s h e)
    | inr (m, e) ↦ unfold task_status in rw e (Later-Quiet s.0 s.0 h (Quiet-refl s.0))
  ]

  pub task_stop-Ahead : (task_id : Text) → Ahead s.0 (task_stop socket json codec task_id s)
  task_stop-Ahead task_id = elim (Result-cases (task s.0 task_id)) [
    | inl (t, e) ↦
        weaken-Post (λ u s'. Stopped socket json codec task_id t s.0 s'.0) (λ u s'. Later s.0 s'.0)
          (λ m s'. Later s.0 s'.0) (λ m s'. Later s.0 s'.0) (task_stop socket json codec task_id s)
          (λ u s' r. r.later) (λ m s' l. l) (task_stop-Stops socket json codec task_id t s h e)
    | inr (m, e) ↦ unfold task_stop in rw e (Later-Quiet s.0 s.0 h (Quiet-refl s.0))
  ]

  results-Still :
      (t : Task) (task_id : Text) (st : TaskStatus) (s' : MaestroLocal × V)
      → Still s'.0 (results socket json codec t task_id st s')
  results-Still t task_id TaskStatus.completed s' =
      continue-Still s'.0 _ _
        (ensure_task_exists-Still socket json codec s'.0 t s' (Quiet-refl s'.0))
        (λ u s'' q.
          task_response-Still socket json codec s'.0 t (codes "Failed to get results")
            (get_results_as_string_at socket t s''.1).0
            (s''.0, (get_results_as_string_at socket t s''.1).1) q)
  results-Still t task_id _ s' = Quiet-refl s'.0

  pub task_result-Ahead : (task_id : Text) → Ahead s.0 (task_result socket json codec task_id s)
  unfolding task_result
  task_result-Ahead task_id = elim (Result-cases (task s.0 task_id)) [
    | inl (t, e) ↦ rw e (
        continue-Post (λ st s'. Later s.0 s'.0) (λ a s'. Later s.0 s'.0) (λ m s'. Later s.0 s'.0)
          (task_status socket json codec task_id s) (results socket json codec t task_id)
          (task_status-Ahead task_id)
          (λ st s' l.
            from_Later s.0 s'.0 (results socket json codec t task_id st s') l
              (results-Still t task_id st s')))
    | inr (m, e) ↦ rw e (Later-Quiet s.0 s.0 h (Quiet-refl s.0))
  ]

  pub task_logs-Ahead : (task_id : Text) → Ahead s.0 (task_logs socket json codec task_id s)
  unfolding task_logs
  task_logs-Ahead task_id = elim (Result-cases (task s.0 task_id)) [
    | inl (t, e) ↦
        rw e (Still-Ahead s.0 _ h (native_api-Still (logs json socket t.session_id t.id) s))
    | inr (m, e) ↦ rw e (Later-Quiet s.0 s.0 h (Quiet-refl s.0))
  ]

  pub target-Ahead : Ahead s.0 (target socket json codec s)
  unfolding target
  target-Ahead = Still-Ahead s.0 _ h (native_api-Still (capabilities json socket) s)

  pub status-Ahead : Ahead s.0 (status socket json codec s)
  unfolding status
  status-Ahead =
      continue-Post (λ a s'. Later s.0 s'.0) (λ a s'. Later s.0 s'.0) (λ m s'. Later s.0 s'.0)
        (native_api (Request.status json socket) s) (λ st s'. (ok (resource_status st), s'))
        (Still-Ahead s.0 _ h (native_api-Still (Request.status json socket) s)) (λ st s' l. l)

  accessible-Ahead :
      (response : Response) (v : V) → Ahead s.0 (accessible socket json codec response (s.0, v))
  accessible-Ahead (ok_flag b) v = Later-Quiet s.0 s.0 h (Quiet-refl s.0)
  accessible-Ahead (error e) v = Later-Quiet s.0 s.0 h (Quiet-refl s.0)
  accessible-Ahead (ok_response t) v = Later-Quiet s.0 s.0 h (Quiet-refl s.0)

  pub is_accessible-Ahead : Ahead s.0 (is_accessible socket json codec s)
  unfolding is_accessible
  is_accessible-Ahead =
      accessible-Ahead (send_command socket (codes "PING\n") s.1).0
        (send_command socket (codes "PING\n") s.1).1
