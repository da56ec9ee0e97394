-- ===== src/Runner/Trace.antt =====
-- What `run_task` (src/bin/task_runner.rs) asks of the resource, in order.
use qrmi.Prelude.{
  ap, ℕ, zero, suc, ◌+◌, Bool, true, false, Option, none, some, List, [], ◌∷◌, ◌≡◌, refl, ◌∙◌,
}
use native.Mathlib.Nat.{zero-add, suc-add}
use qrmi.Text.{Text}
use qrmi.Result.{Result, ok, err}
use qrmi.Errors.{QrmiError}
use qrmi.Models.{Payload, TaskStatus, queued, running, completed, failed, cancelled}
use qrmi.Resource.{QuantumResource}
use qrmi.Runner.{
  RunnerError, Host, Round, finished, again, wrote_output, result_value, written, announced,
  deliver, fetched, on_flag, proceed, on_status, round, poll, watched, failure, on_logs, on_stop,
  clean_up, task_id, started, run_task,
}
use qrmi.Runner.Calls.{
  Call, start, status, result, logs, stop, Recorded, recording, beside, polls, fetch, ReadIfOk,
  Ends,
}

polls-polls :
    (n m : ℕ) (id : Text) (before : List Call)
    → polls (n + m) id before ≡ polls m id (polls n id before)
polls-polls zero m id before = rw zero-add
polls-polls (suc n) m id before = rw suc-add (polls-polls n m id (status id ∷ before))

-- How the loop has gone, from `before`: some polls, then one read of the result or none; a success
-- has read it.
record Watched (id : Text) (before : List Call) (r : Result RunnerError (Unit {0}))
    (calls : List Call) : Type 0 where
  count : ℕ
  fetched : Bool
  calls_are : calls ≡ fetch fetched id (polls count id before)
  ok_fetched : ReadIfOk r fetched

abbrev After : Text → List Call → Round → List Call → Type 0
After id before (finished r) calls = Watched id before r calls
After id before again calls = (n : ℕ) × (calls ≡ polls n id before)

module _ {W : Type 0} (host : Host W) (resource : QuantumResource W) (id : Text) where
  abbrev outer : Host (Recorded W)
  outer = beside host

  abbrev inner : QuantumResource (Recorded W)
  inner = recording resource

  -- Once the result is read, the round ends, with no other call.
  written-After :
      (before : List Call) (r : Result Text (Unit {0})) (s : Recorded W)
      → s.1 ≡ result id ∷ status id ∷ before
      → let step = written outer inner (r, s) in After id before step.0 step.1.1
  written-After before (ok u) s e = record {
    count = 1;
    fetched = true;
    calls_are = e;
    ok_fetched = refl;
  }
  written-After before (err x) s e = record {
    count = 1;
    fetched = true;
    calls_are = e;
    ok_fetched = tt;
  }

  announced-After :
      (before : List Call) (path : Text) (r : Result Text (Unit {0})) (s : Recorded W)
      → s.1 ≡ result id ∷ status id ∷ before
      → let step = announced outer inner path (r, s) in After id before step.0 step.1.1
  announced-After before path (ok u) s e =
      let (r, s') = outer.write_output (wrote_output path) s in written-After before r s' e
  announced-After before path (err x) s e = record {
    count = 1;
    fetched = true;
    calls_are = e;
    ok_fetched = tt;
  }

  deliver-After :
      (before : List Call) (out : Option Text) (value : Text) (s : Recorded W)
      → s.1 ≡ result id ∷ status id ∷ before
      → let step = deliver outer inner out value s in After id before step.0 step.1.1
  deliver-After before none value s e =
      let (r, s') = outer.write_output (result_value value) s in written-After before r s' e
  deliver-After before (some path) value s e =
      let (r, s') = outer.write_file path value s in announced-After before path r s' e

  fetched-After :
      (before : List Call) (out : Option Text) (r : Result QrmiError Text) (s : Recorded W)
      → s.1 ≡ result id ∷ status id ∷ before
      → let step = fetched outer inner out (r, s) in After id before step.0 step.1.1
  fetched-After before out (ok value) s e = deliver-After before out value s e
  fetched-After before out (err x) s e = record {
    count = 1;
    fetched = true;
    calls_are = e;
    ok_fetched = tt;
  }

  on_status-After :
      (before : List Call) (out : Option Text) (r : Result QrmiError TaskStatus) (s : Recorded W)
      → s.1 ≡ status id ∷ before
      → let step = on_status outer inner out id (r, s) in After id before step.0 step.1.1
  unfolding on_status
  on_status-After before out (ok completed) s e =
      let (r, s') = inner.task_result id s in fetched-After before out r s' (ap (◌∷◌ (result id)) e)
  on_status-After before out (ok failed) s e = record {
    count = 1;
    fetched = false;
    calls_are = e;
    ok_fetched = tt;
  }
  on_status-After before out (ok cancelled) s e = record {
    count = 1;
    fetched = false;
    calls_are = e;
    ok_fetched = tt;
  }
  on_status-After before out (ok queued) s e = (1, e)
  on_status-After before out (ok running) s e = (1, e)
  on_status-After before out (err x) s e = (1, e)

  on_flag-After :
      (before : List Call) (out : Option Text) (b : Bool) (w : W)
      → let step = on_flag outer inner out id (b, (w, before)) in After id before step.0 step.1.1
  on_flag-After before out true w =
      let (r, s') = inner.task_status id (w, before) in on_status-After before out r s' refl
  on_flag-After before out false w = record {
    count = 0;
    fetched = false;
    calls_are = refl;
    ok_fetched = tt;
  }

  abbrev Polled : List Call → Option (Result RunnerError (Unit {0})) × Recorded W → Type 0
  Polled before (none, s) = Unit
  Polled before (some r, s) = Watched id before r s.1

  Watched-later :
      (n : ℕ) {before calls : List Call} {r : Result RunnerError (Unit {0})}
      → Watched id (polls n id before) r calls
      → Watched id before r calls
  Watched-later n v = record {
    count = n + v.count;
    fetched = v.fetched;
    calls_are = rw polls-polls v.calls_are;
    ok_fetched = v.ok_fetched;
  }

  Polled-later :
      (n : ℕ) (before : List Call) (o : Option (Result RunnerError (Unit {0})) × Recorded W)
      → Polled (polls n id before) o
      → Polled before o
  Polled-later n before (none, s) v = tt
  Polled-later n before (some r, s) v = Watched-later n v

  proceed-Polled :
      (before : List Call)
      (later : Recorded W → Option (Result RunnerError (Unit {0})) × Recorded W)
      → ((w : W) (n : ℕ) → Polled (polls n id before) (later (w, polls n id before)))
      → (r : Round) (s : Recorded W) → After id before r s.1
      → Polled before (proceed outer inner later (r, s))
  proceed-Polled before later ih (finished r) s v = v
  proceed-Polled before later ih again (w, calls) (n, e) =
      let w' = host.sleep w in
      rw e (Polled-later n before (later (w', polls n id before)) (ih w' n))

  poll-Polled :
      (fuel : ℕ) (out : Option Text) (w : W) (before : List Call)
      → Polled before (poll outer inner fuel out id (w, before))
  unfolding poll
  poll-Polled zero out w before = tt
  poll-Polled (suc fuel) out w before =
      let (r, s) = round outer inner out id (w, before) in
      proceed-Polled before (poll outer inner fuel out id)
        (λ w' n. poll-Polled fuel out w' (polls n id before)) r s
        (let (b, w') = host.is_running w in on_flag-After before out b w')

  calls-on_stop :
      (r : Result QrmiError (Unit {0})) (s : Recorded W) → (on_stop outer inner (r, s)).1 ≡ s.1
  calls-on_stop (ok u) s = refl
  calls-on_stop (err e) s = refl

  calls-on_logs :
      (r : Result QrmiError Text) (s : Recorded W) → (on_logs outer inner (r, s)).1 ≡ s.1
  calls-on_logs (ok []) s = refl
  calls-on_logs (ok (c ∷ text)) s = refl
  calls-on_logs (err e) s = refl

  clean_up-Ends :
      (p : Payload) (r : Option (Result RunnerError (Unit {0}))) (s : Recorded W)
      → Polled (start p ∷ []) (r, s)
      → let final = clean_up outer inner id (r, s) in Ends p (ok id) final.0 final.1.1
  unfolding clean_up
  clean_up-Ends p none s v = tt
  clean_up-Ends p (some (ok u)) s v =
      let (r, stopped) = inner.task_stop id s in
      (v.count, v.fetched, calls-on_stop r stopped ∙ ap (◌∷◌ (stop id)) v.calls_are, v.ok_fetched)
  clean_up-Ends p (some (err x)) s v =
      let (l, s') = inner.task_logs id (outer.write_diagnostics (failure x) s) in
      let (r, stopped) = inner.task_stop id (on_logs outer inner (l, s')) in
      let told = calls-on_logs l s' ∙ ap (◌∷◌ (logs id)) v.calls_are in
      (v.count, v.fetched, calls-on_stop r stopped ∙ ap (◌∷◌ (stop id)) told, v.ok_fetched)

  watched-Polled :
      (fuel : ℕ) (out : Option Text) (r : Result Text (Unit {0})) (w : W) (before : List Call)
      → Polled before (watched outer inner fuel out id (r, (w, before)))
  watched-Polled fuel out (ok u) w before = poll-Polled fuel out w before
  watched-Polled fuel out (err e) w before = record {
    count = 0;
    fetched = false;
    calls_are = refl;
    ok_fetched = tt;
  }

module _ {W : Type 0} (host : Host W) (resource : QuantumResource W) where
  started-Ends :
      (fuel : ℕ) (p : Payload) (out : Option Text) (r : Result QrmiError Text) (w : W)
      → let final = started (beside host) (recording resource) fuel out (r, (w, start p ∷ [])) in
        Ends p r final.0 final.1.1
  started-Ends fuel p out (ok id) w =
      let (r, w') = host.write_output (task_id id) w in
      let (o, s) = watched (beside host) (recording resource) fuel out id (r, (w', start p ∷ [])) in
      clean_up-Ends host resource id p o s
        (watched-Polled host resource id fuel out r w' (start p ∷ []))
  started-Ends fuel p out (err e) w = refl

  -- Whatever the resource and the host do, a run that ends has made these calls of the resource and
  -- no others: if the submission fails, only the submission, and the run fails. Otherwise the
  -- submission, some polls of the task's status, at most one read of the result, a read of the logs
  -- exactly if the run failed, and last of all one stop of the task. A run that succeeds has read
  -- the result.
  pub run_task-Ends :
      (fuel : ℕ) (p : Payload) (out : Option Text) (w : W)
      → let final = run_task (beside host) (recording resource) fuel p out (w, []) in
        Ends p (resource.task_start p w).0 final.0 final.1.1
  unfolding run_task
  run_task-Ends fuel p out w = let (r, w') = resource.task_start p w in started-Ends fuel p out r w'
