-- ===== src/Maestro/Local/Tasks/Later.antt =====
-- What a task that was seen to end is reported as later, whatever else is called
-- (src/maestro/local.rs).
use qrmi.Prelude.{ℕ, ◌≡◌, refl, ◌∙◌, inl, inr, true, false, Option, none, some, Bool, Bool-cases}
use qrmi.Text.{Text}
use qrmi.Result.{Result, ok, err}
use qrmi.Exec.{Post, continue-Post}
use qrmi.Errors.{QrmiError}
use qrmi.Models.{TaskStatus}
use qrmi.Json.{Codec}
use qrmi.Maestro.Socket.{Socket}
use qrmi.Maestro.Session.{Task, cancel_at}
use qrmi.Maestro.Request.{Json}
use qrmi.Maestro.Local.{
  MaestroLocal, same_task, lookup, insert, task, key, is_terminal, cancellation_recorded,
}
use qrmi.Maestro.Local.Tasks.{
  task_status, task_stop, server_task_status, known_or_asked, observed, observe, confirmed,
  stop_unless, cancelled, judged,
}
use qrmi.Maestro.Local.Tasks.Cache.{
  Quiet, Quiet-refl, lookup-insert, lookup-insert_self, same_task-eq, server_task_status-Still,
  cancellation_recorded-Still, Still, Still-trans,
}

-- The map holds ends only.
abbrev pub HoldsEnds : MaestroLocal → Type 0
HoldsEnds self =
    (k : ℕ × ℕ) (status : TaskStatus)
    → lookup k self.terminal_tasks ≡ some status
    → is_terminal status ≡ true

-- The session is the same, and what was seen to end is remembered as that.
pub record Later (self self' : MaestroLocal) : Type 0 where
  pub name : self'.backend_name ≡ self.backend_name
  pub session : self'.session_id ≡ self.session_id
  pub ends : HoldsEnds self'
  pub kept :
      (k : ℕ × ℕ) (status : TaskStatus)
      → lookup k self.terminal_tasks ≡ some status
      → lookup k self'.terminal_tasks ≡ some status

pub Later-Quiet : (self self' : MaestroLocal) → HoldsEnds self → Quiet self self' → Later self self'
Later-Quiet self self' h q = record {
  name = q.name;
  session = q.session;
  ends = rw q.tasks h;
  kept = λ k status e. rw q.tasks e;
}

pub Later-trans : (a b c : MaestroLocal) → Later a b → Later b c → Later a c
Later-trans a b c p q = record {
  name = q.name ∙ p.name;
  session = q.session ∙ p.session;
  ends = q.ends;
  kept = λ k status e. q.kept k status (p.kept k status e);
}

pub task-Later :
    (self self' : MaestroLocal) (task_id : Text)
    → Later self self'
    → task self' task_id ≡ task self task_id
unfolding task
task-Later self self' task_id l = rw (l.name, l.session)

-- A task that was not seen to end is seen to.
pub insert-Later :
    (self : MaestroLocal) (k : ℕ × ℕ) (status : TaskStatus)
    → HoldsEnds self
    → lookup k self.terminal_tasks ≡ none
    → is_terminal status ≡ true
    → Later self (record self { terminal_tasks = insert k status self.terminal_tasks })
insert-Later self k status h fresh t = record {
  name = refl;
  session = refl;
  ends = λ j status' e. elim (Bool-cases (same_task k j)) [
    | inl same ↦
        let found : some status ≡ some status' =
          rw (lookup-insert k j status self.terminal_tasks, same) at e in
        cc
    | inr other ↦ h j status' (rw (lookup-insert k j status self.terminal_tasks, other) at e)
  ];
  kept = λ j status' e. elim (Bool-cases (same_task k j)) [
    | inl same ↦ absurd (cc (same_task-eq k j same))
    | inr other ↦ rw (lookup-insert k j status self.terminal_tasks, other) e
  ];
}

-- A status was reported: it is remembered exactly if it is an end.
pub record Reported (t : Task) (self : MaestroLocal) (status : TaskStatus) (self' : MaestroLocal)
    : Type 0 where
  pub later : Later self self'
  pub ended : is_terminal status ≡ true → lookup (key t) self'.terminal_tasks ≡ some status
  pub unended : is_terminal status ≡ false → lookup (key t) self'.terminal_tasks ≡ none

module _ {V Doc : Type 0} (socket : Socket V) (json : Json Doc) (codec : Codec) where
  module _ (t : Task) (self : MaestroLocal) where
    abbrev pub Answered : Result QrmiError TaskStatus × (MaestroLocal × V) → Type 0
    Answered = Post (λ status s. Reported t self status s.0) (λ e s. Later self s.0)

  module _ (t : Task) (self : MaestroLocal) (h : HoldsEnds self) where
    observe-Answered :
        (fresh : lookup (key t) self.terminal_tasks ≡ none) (status : TaskStatus)
        (s : MaestroLocal × V)
        → Quiet self s.0
        → Answered t self (observe socket json codec t status s)
    observe-Answered fresh status s q =
        let ends : HoldsEnds s.0 = rw q.tasks h in
        let unseen : lookup (key t) s.0.terminal_tasks ≡ none = rw q.tasks fresh in
        let still = Later-Quiet self s.0 h q in
        elim (Bool-cases (is_terminal status)) [
          | inl e ↦ rw e (record {
            later = Later-trans _ _ _ still (insert-Later s.0 (key t) status ends unseen e);
            ended = λ u. lookup-insert_self (key t) status s.0.terminal_tasks;
            unended = λ n. cc;
          })
          | inr e ↦ rw e (record { later = still; ended = λ n. cc; unended = λ n. unseen })
        ]

    module _ (fresh : lookup (key t) self.terminal_tasks ≡ none) where
      confirmed-Answered :
          (id : Text) (o : Result QrmiError Bool × (MaestroLocal × V))
          → Still self o
          → Answered t self (confirmed socket json codec t id o)
      confirmed-Answered id (ok true, s) q = observe-Answered fresh TaskStatus.cancelled s q
      confirmed-Answered id (ok false, s) q = Later-Quiet self s.0 h q
      confirmed-Answered id (err e, s) q = Later-Quiet self s.0 h q

      observed-Answered :
          (o : Result QrmiError TaskStatus × (MaestroLocal × V))
          → Still self o
          → Answered t self (observed socket json codec t o)
      observed-Answered (err (QrmiError.task_not_found id), s) q =
          confirmed-Answered id (cancellation_recorded socket json codec t s) (
            Still-trans self s.0 (cancellation_recorded socket json codec t s) q
              (cancellation_recorded-Still socket json codec t s))
      observed-Answered (err _, s) q = Later-Quiet self s.0 h q
      observed-Answered (ok status, s) q = observe-Answered fresh status s q

    known_or_asked-Answered :
        (v : V) (o : Option TaskStatus)
        → lookup (key t) self.terminal_tasks ≡ o
        → Answered t self (known_or_asked socket json codec t o (self, v))
    known_or_asked-Answered v (some status) e = record {
      later = Later-Quiet self self h (Quiet-refl self);
      ended = λ u. e;
      unended = λ n. cc (h (key t) status e);
    }
    known_or_asked-Answered v none e =
        observed-Answered e (server_task_status socket json codec t (self, v))
          (server_task_status-Still socket json codec self t (self, v) (Quiet-refl self))

  -- The methods with a task's name, on the task that it names.
  module _ (task_id : Text) (t : Task) where
    pub task_status-Answered :
        (s : MaestroLocal × V)
        → HoldsEnds s.0
        → task s.0 task_id ≡ ok t
        → Answered t s.0 (task_status socket json codec task_id s)
    unfolding task_status
    task_status-Answered s h e =
        rw e (known_or_asked-Answered t s.0 h s.1 (lookup (key t) s.0.terminal_tasks) refl)

    -- The task is remembered as one that has ended.
    pub record Stopped (self self' : MaestroLocal) : Type 0 where
      pub later : Later self self'
      pub status : TaskStatus
      pub terminal : is_terminal status ≡ true
      pub remembered : lookup (key t) self'.terminal_tasks ≡ some status

    module _ (self : MaestroLocal) where
      abbrev pub Stops : Result QrmiError (Unit {0}) × (MaestroLocal × V) → Type 0
      Stops = Post (λ u s. Stopped self s.0) (λ e s. Later self s.0)

      judged-Stops :
          (self' : MaestroLocal) (response : Result Text Bool)
          (o : Result QrmiError TaskStatus × (MaestroLocal × V))
          → Later self self'
          → Post (λ status s. Reported t self' status s.0) (λ e s. Later self' s.0) o
          → Stops (judged socket json codec task_id response o)
      judged-Stops self' response (ok TaskStatus.completed, s) l r = record {
        later = Later-trans self self' s.0 l r.later;
        status = TaskStatus.completed;
        terminal = refl;
        remembered = r.ended refl;
      }
      judged-Stops self' response (ok TaskStatus.failed, s) l r = record {
        later = Later-trans self self' s.0 l r.later;
        status = TaskStatus.failed;
        terminal = refl;
        remembered = r.ended refl;
      }
      judged-Stops self' response (ok TaskStatus.cancelled, s) l r = record {
        later = Later-trans self self' s.0 l r.later;
        status = TaskStatus.cancelled;
        terminal = refl;
        remembered = r.ended refl;
      }
      judged-Stops self' response (ok _, s) l r = Later-trans self self' s.0 l r.later
      judged-Stops self' response (err (QrmiError.task_not_found id), s) l r =
          Later-trans self self' s.0 l r
      judged-Stops self' response (err _, s) l r = Later-trans self self' s.0 l r

      cancelled-Stops :
          (response : Result Text Bool) (s : MaestroLocal × V)
          → Later self s.0
          → lookup (key t) s.0.terminal_tasks ≡ none
          → task s.0 task_id ≡ ok t
          → Stops (cancelled socket json codec t task_id response s)
      cancelled-Stops (ok true) s l fresh e = record {
        later =
            Later-trans self s.0 _ l
              (insert-Later s.0 (key t) TaskStatus.cancelled l.ends fresh refl);
        status = TaskStatus.cancelled;
        terminal = refl;
        remembered = lookup-insert_self (key t) TaskStatus.cancelled s.0.terminal_tasks;
      }
      cancelled-Stops (ok false) s l fresh e =
          judged-Stops s.0 (ok false) (task_status socket json codec task_id s) l
            (task_status-Answered s l.ends e)
      cancelled-Stops (err m) s l fresh e =
          judged-Stops s.0 (err m) (task_status socket json codec task_id s) l
            (task_status-Answered s l.ends e)

      stop_unless-Stops :
          (status : TaskStatus) (s : MaestroLocal × V)
          → task s.0 task_id ≡ ok t
          → Reported t self status s.0
          → Stops (stop_unless socket json codec t task_id (is_terminal status) s)
      stop_unless-Stops status s e r = elim (Bool-cases (is_terminal status)) [
        | inl ends ↦ rw ends (record {
          later = r.later;
          status = status;
          terminal = ends;
          remembered = r.ended ends;
        })
        | inr goes ↦ rw goes (
            cancelled-Stops (cancel_at socket t s.1).0 (s.0, (cancel_at socket t s.1).1) r.later
              (r.unended goes) e)
      ]

    pub task_stop-Stops :
        (s : MaestroLocal × V)
        → HoldsEnds s.0
        → task s.0 task_id ≡ ok t
        → Stops s.0 (task_stop socket json codec task_id s)
    unfolding task_stop
    task_stop-Stops s h e = rw e (
        continue-Post (λ status s'. Reported t s.0 status s'.0) (λ u s'. Stopped s.0 s'.0)
          (λ m s'. Later s.0 s'.0) (task_status socket json codec task_id s)
          (λ status. stop_unless socket json codec t task_id (is_terminal status))
          (task_status-Answered s h e)
          (λ status s' r.
            stop_unless-Stops s.0 status s' (task-Later s.0 s'.0 task_id r.later ∙ e) r))
