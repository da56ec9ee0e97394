-- ===== src/Runner/Calls.antt =====
-- The calls that `run_task` (src/bin/task_runner.rs) makes of the resource: they are recorded by a
-- resource that wraps the given one, so the code under study is the same.
use qrmi.Prelude.{ℕ, zero, suc, Bool, true, false, Option, none, some, List, [], ◌∷◌, ◌≡◌}
use qrmi.Text.{Text}
use qrmi.Result.{Result, ok, err}
use qrmi.Exec.{Exec}
use qrmi.Errors.{QrmiError}
use qrmi.Models.{Payload}
use qrmi.Resource.{QuantumResource}
use qrmi.Runner.{RunnerError, Host, fetched}

pub data Call : Type 0 where
  start : Payload → Call
  status result logs stop : Text → Call

-- The state of the wrapped resource, and the calls made so far, the latest first.
abbrev pub Recorded : Type 0 → Type 0
Recorded W = W × List Call

abbrev pub record_call : {W A : Type 0} → Call → Exec W QrmiError A → Exec (Recorded W) QrmiError A
record_call c m (w, calls) = let (r, w') = m w in (r, (w', c ∷ calls))

abbrev pub unrecorded : {W E A : Type 0} → Exec W E A → Exec (Recorded W) E A
unrecorded m (w, calls) = let (r, w') = m w in (r, (w', calls))

abbrev pub recording : {W : Type 0} → QuantumResource W → QuantumResource (Recorded W)
recording resource = record {
  resource_id = unrecorded resource.resource_id;
  resource_type = unrecorded resource.resource_type;
  is_accessible = unrecorded resource.is_accessible;
  status = unrecorded resource.status;
  acquire = unrecorded resource.acquire;
  release = λ id. unrecorded (resource.release id);
  task_start = λ p. record_call (start p) (resource.task_start p);
  task_stop = λ id. record_call (stop id) (resource.task_stop id);
  task_status = λ id. record_call (status id) (resource.task_status id);
  task_result = λ id. record_call (result id) (resource.task_result id);
  task_logs = λ id. record_call (logs id) (resource.task_logs id);
  target = unrecorded resource.target;
}

abbrev pub beside : {W : Type 0} → Host W → Host (Recorded W)
beside host = record {
  write_output = λ line. unrecorded (host.write_output line);
  write_file = λ path text. unrecorded (host.write_file path text);
  write_diagnostics = λ line r. (host.write_diagnostics line r.0, r.1);
  is_running = λ r. let (b, w) = host.is_running r.0 in (b, (w, r.1));
  sleep = λ r. (host.sleep r.0, r.1);
}

-- `n` polls.
abbrev pub polls : ℕ → Text → List Call → List Call
polls zero id before = before
polls (suc n) id before = polls n id (status id ∷ before)

abbrev pub fetch : Bool → Text → List Call → List Call
fetch true id before = result id ∷ before
fetch false id before = before

abbrev pub logs_on_error : Result RunnerError (Unit {0}) → Text → List Call → List Call
logs_on_error (ok u) id before = before
logs_on_error (err e) id before = logs id ∷ before

abbrev pub ReadIfOk : Result RunnerError (Unit {0}) → Bool → Type 0
ReadIfOk (ok u) fetched = fetched ≡ true
ReadIfOk (err e) fetched = Unit

-- The calls of a whole run, by what its submission returned and how it ended; nothing is said of a
-- run whose fuel ran out.
abbrev pub Ends :
    Payload → Result QrmiError Text → Option (Result RunnerError (Unit {0})) → List Call → Type 0
Ends p (err e) (some (err x)) calls = calls ≡ start p ∷ []
Ends p (err e) _ calls = ⊥
Ends p (ok id) none calls = Unit
Ends p (ok id) (some r) calls =
    (n : ℕ) × (fetched : Bool) × (calls
      ≡ stop id ∷ logs_on_error r id (fetch fetched id (polls n id (start p ∷ []))))
    × ReadIfOk r fetched
