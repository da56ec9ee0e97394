-- ===== src/Maestro/Local/Tasks/Reach.antt =====
-- The states that the resource of Maestro Local comes to by calls of its methods, and what it reports
-- in them (src/maestro/local.rs).
use qrmi.Prelude.{ℕ, ◌≡◌, refl, ◌∙◌, inl, inr, true, Option, some}
use qrmi.Text.{Text, parse_u32}
use qrmi.Result.{ok, err, Result-cases}
use qrmi.Errors.{QrmiError}
use qrmi.Models.{TaskStatus, Payload}
use qrmi.Json.{Codec}
use qrmi.Maestro.Socket.{Socket}
use qrmi.Maestro.Session.{Task}
use qrmi.Maestro.Request.{Json}
use qrmi.Maestro.Local.{MaestroLocal, fresh, lookup, is_terminal, task, key}
use qrmi.Maestro.Local.Tasks.{
  task_status, task_stop, task_result, task_logs, target, status, is_accessible, acquire, release,
}
use qrmi.Maestro.Local.Tasks.Submit.{task_start}
use qrmi.Maestro.Local.Tasks.Cache.{Quiet-refl}
use qrmi.Maestro.Local.Tasks.Later.{
  HoldsEnds, Later, Later-Quiet, Later-trans, task-Later, task_status-Answered, task_stop-Stops,
}
use qrmi.Maestro.Local.Tasks.Ahead.{
  Ahead-after, task_status-Ahead, task_stop-Ahead, task_result-Ahead, task_logs-Ahead, target-Ahead,
  status-Ahead, is_accessible-Ahead,
}
use qrmi.Maestro.Local.Tasks.Ends.{
  fresh-HoldsEnds, task_start-HoldsEnds, acquire_from-HoldsEnds, release_of-HoldsEnds,
}

-- A task has ended.
abbrev pub IsEnd : TaskStatus → Type 0
IsEnd TaskStatus.queued = ⊥
IsEnd TaskStatus.running = ⊥
IsEnd TaskStatus.completed = Unit {0}
IsEnd TaskStatus.failed = Unit {0}
IsEnd TaskStatus.cancelled = Unit {0}

is_terminal-IsEnd : (st : TaskStatus) → is_terminal st ≡ true → IsEnd st
is_terminal-IsEnd TaskStatus.completed h = tt
is_terminal-IsEnd TaskStatus.failed h = tt
is_terminal-IsEnd TaskStatus.cancelled h = tt
is_terminal-IsEnd TaskStatus.queued h = cc
is_terminal-IsEnd TaskStatus.running h = cc

IsEnd-is_terminal : (st : TaskStatus) → IsEnd st → is_terminal st ≡ true
IsEnd-is_terminal TaskStatus.completed h = refl
IsEnd-is_terminal TaskStatus.failed h = refl
IsEnd-is_terminal TaskStatus.cancelled h = refl
IsEnd-is_terminal TaskStatus.queued h = absurd h
IsEnd-is_terminal TaskStatus.running h = absurd h

-- Every status in the map is an end.
abbrev pub OnlyEnds : MaestroLocal → Type 0
OnlyEnds self =
    (k : ℕ × ℕ) (status : TaskStatus) → lookup k self.terminal_tasks ≡ some status → IsEnd status

module _ {V Doc : Type 0} (socket : Socket V) (json : Json Doc) (codec : Codec)
    (display : QrmiError → Text) where
  -- A call that may be made between two reports of a task, or a change of the world by others.
  pub data Call (s : MaestroLocal × V) : MaestroLocal × V → Type 0 where
    call_status : Call s (status socket json codec s).1
    call_is_accessible : Call s (is_accessible socket json codec s).1
    call_task_status : (id : Text) → Call s (task_status socket json codec id s).1
    call_task_stop : (id : Text) → Call s (task_stop socket json codec id s).1
    call_task_result : (id : Text) → Call s (task_result socket json codec id s).1
    call_task_logs : (id : Text) → Call s (task_logs socket json codec id s).1
    call_target : Call s (target socket json codec s).1
    elsewhere : (v : V) → Call s (s.0, v)

  pub data Calls (s : MaestroLocal × V) : MaestroLocal × V → Type 0 where
    no_call : Calls s s
    then_call : {t u : MaestroLocal × V} → Calls s t → Call t u → Calls s u

  -- The states that the resource comes to from its construction by any calls.
  pub data Reached : MaestroLocal × V → Type 0 where
    constructed : (name path : Text) (id : Option ℕ) (v : V) → Reached (fresh name path id, v)
    called : {s t : MaestroLocal × V} → Reached s → Call s t → Reached t
    acquired : {s : MaestroLocal × V} → Reached s → Reached (acquire socket json codec s).1
    released :
        {s : MaestroLocal × V} (id : Text) → Reached s → Reached (release socket json codec id s).1
    began :
        {s : MaestroLocal × V} (payload : Payload)
        → Reached s
        → Reached (task_start socket json codec display payload s).1

  Call-Later : {s t : MaestroLocal × V} → HoldsEnds s.0 → Call s t → Later s.0 t.0
  Call-Later {s} h call_status = Ahead-after s.0 _ (status-Ahead socket json codec s h)
  Call-Later {s} h call_is_accessible =
      Ahead-after s.0 _ (is_accessible-Ahead socket json codec s h)
  Call-Later {s} h (call_task_status id) =
      Ahead-after s.0 _ (task_status-Ahead socket json codec s h id)
  Call-Later {s} h (call_task_stop id) =
      Ahead-after s.0 _ (task_stop-Ahead socket json codec s h id)
  Call-Later {s} h (call_task_result id) =
      Ahead-after s.0 _ (task_result-Ahead socket json codec s h id)
  Call-Later {s} h (call_task_logs id) =
      Ahead-after s.0 _ (task_logs-Ahead socket json codec s h id)
  Call-Later {s} h call_target = Ahead-after s.0 _ (target-Ahead socket json codec s h)
  Call-Later {s} h (elsewhere v) = Later-Quiet s.0 s.0 h (Quiet-refl s.0)

  Calls-Later : {s t : MaestroLocal × V} → HoldsEnds s.0 → Calls s t → Later s.0 t.0
  Calls-Later {s} h no_call = Later-Quiet s.0 s.0 h (Quiet-refl s.0)
  Calls-Later {s} h (then_call calls call) =
      let before = Calls-Later h calls in Later-trans _ _ _ before (Call-Later before.ends call)

  acquire-HoldsEnds :
      (s : MaestroLocal × V) → HoldsEnds s.0 → HoldsEnds (acquire socket json codec s).1.0
  unfolding acquire
  acquire-HoldsEnds s h = acquire_from-HoldsEnds socket json codec display s.0 s.1 s.0.session_id h

  release-HoldsEnds :
      (id : Text) (s : MaestroLocal × V)
      → HoldsEnds s.0
      → HoldsEnds (release socket json codec id s).1.0
  unfolding release
  release-HoldsEnds id s h =
      release_of-HoldsEnds socket json codec display s.0 s.1 id (parse_u32 id) h

  Reached-HoldsEnds : {s : MaestroLocal × V} → Reached s → HoldsEnds s.0
  Reached-HoldsEnds (constructed name path id v) = fresh-HoldsEnds name path id
  Reached-HoldsEnds (called r call) = (Call-Later (Reached-HoldsEnds r) call).ends
  Reached-HoldsEnds (acquired {s} r) = acquire-HoldsEnds s (Reached-HoldsEnds r)
  Reached-HoldsEnds (released {s} id r) = release-HoldsEnds id s (Reached-HoldsEnds r)
  Reached-HoldsEnds (began {s} payload r) =
      task_start-HoldsEnds socket json codec display payload s (Reached-HoldsEnds r)

  -- In every state that calls of the methods lead to, starts, acquisitions and releases included, the
  -- map holds tasks that have completed, failed or been cancelled, and none that is queued or running.
  pub Reached-OnlyEnds : {s : MaestroLocal × V} → Reached s → OnlyEnds s.0
  Reached-OnlyEnds r k status e = is_terminal-IsEnd status (Reached-HoldsEnds r k status e)

  remembered_status :
      (task_id : Text) (t : Task) (st : TaskStatus) (s : MaestroLocal × V)
      → task s.0 task_id ≡ ok t
      → lookup (key t) s.0.terminal_tasks ≡ some st
      → task_status socket json codec task_id s ≡ (ok st, s)
  unfolding task_status
  remembered_status task_id t st s e found = rw (e, found) refl

  failing_status :
      (task_id : Text) (m : QrmiError) (s : MaestroLocal × V)
      → task s.0 task_id ≡ err m
      → task_status socket json codec task_id s ≡ (err m, s)
  unfolding task_status
  failing_status task_id m s e = rw e refl

  failing_stop :
      (task_id : Text) (m : QrmiError) (s : MaestroLocal × V)
      → task s.0 task_id ≡ err m
      → task_stop socket json codec task_id s ≡ (err m, s)
  unfolding task_stop
  failing_stop task_id m s e = rw e refl

  module _ (task_id : Text) {s s1 s2 : MaestroLocal × V} (r : Reached s) where
    -- Once the resource has reported that a task has completed, failed or been cancelled, it reports
    -- the same whatever is asked of it in between, other than to acquire, to release or to start, and
    -- whatever becomes of the task on the server.
    pub task_status_stays :
        (st : TaskStatus)
        → task_status socket json codec task_id s ≡ (ok st, s1)
        → IsEnd st
        → Calls s1 s2
        → task_status socket json codec task_id s2 ≡ (ok st, s2)
    task_status_stays st e ends calls = elim (Result-cases (task s.0 task_id)) [
      | inr (m, bad) ↦ absurd (cc (failing_status task_id m s bad))
      | inl (t, good) ↦
          let reported =
            rw e at
              (task_status-Answered socket json codec task_id t s (Reached-HoldsEnds r) good) in
          let later = Calls-Later reported.later.ends calls in
          remembered_status task_id t st s2
            (task-Later s1.0 s2.0 task_id later ∙ task-Later s.0 s1.0 task_id reported.later ∙ good)
            (later.kept (key t) st (reported.ended (IsEnd-is_terminal st ends)))
    ]

    -- After a successful `task_stop` the resource reports that the task has completed, failed or been
    -- cancelled, whatever is asked of it in between, other than to acquire, to release or to start.
    pub task_stop_settles :
        task_stop socket json codec task_id s ≡ (ok tt, s1)
        → Calls s1 s2
        → (st : TaskStatus) × IsEnd st × (task_status socket json codec task_id s2 ≡ (ok st, s2))
    task_stop_settles e calls = elim (Result-cases (task s.0 task_id)) [
      | inr (m, bad) ↦ absurd (cc (failing_stop task_id m s bad))
      | inl (t, good) ↦
          let stopped =
            rw e at (task_stop-Stops socket json codec task_id t s (Reached-HoldsEnds r) good) in
          let later = Calls-Later stopped.later.ends calls in
          (
            stopped.status,
            is_terminal-IsEnd stopped.status stopped.terminal,
            remembered_status task_id t stopped.status s2
                (task-Later s1.0 s2.0 task_id later
                  ∙ task-Later s.0 s1.0 task_id stopped.later
                  ∙ good)
                (later.kept (key t) stopped.status stopped.remembered),
          )
    ]
