-- ===== src/Runner/Total.antt =====
-- How long `run_task` (src/bin/task_runner.rs) may take.
use qrmi.Prelude.{
  ℕ, zero, suc, ◌≤◌, ◌<◌, ◌≡◌, refl, ◌⊎◌, inl, inr, Bool, true, false, Option, none, some, arith,
  ◌≢◌, ◌-◌,
}
use native.Mathlib.Nat.{le_trans}
use qrmi.Text.{Text}
use qrmi.Result.{Result, ok, err}
use qrmi.Errors.{QrmiError}
use qrmi.Models.{Payload, TaskStatus, queued, running, completed, failed, cancelled}
use qrmi.Resource.{QuantumResource}
use native.Mathlib.Decide.{ℕ_discrete}
use qrmi.Runner.{
  RunnerError, Line, status_failed, task_id, Host, Round, finished, again, written, announced,
  fetched, on_flag, on_status, round, proceed, poll, watched, clean_up, started, run_task,
  wrote_output, result_value, io, call_failed,
}

abbrev pub IsFinal : Result QrmiError TaskStatus → Type 0
IsFinal (ok completed) = Unit
IsFinal (ok failed) = Unit
IsFinal (ok cancelled) = Unit
IsFinal _ = ⊥

-- How long the world will go on: within `left` sleeps the flag is cleared, by the handler of a
-- signal, or the service reports that the task has ended. Nothing else that the loop does puts this
-- off.
pub record Expires {W : Type 0} (host : Host W) (resource : QuantumResource W) (left : W → ℕ)
    : Type 0 where
  pub due :
      (id : Text) (w : W)
      → left w ≡ 0
      → ((host.is_running w).0 ≡ false) ⊎ IsFinal (resource.task_status id (host.is_running w).1).0
  pub read_flag : (w : W) → left (host.is_running w).1 ≤ left w
  pub ask : (id : Text) (w : W) → left (resource.task_status id w).1 ≤ left w
  pub tell : (line : Line) (w : W) → left (host.write_diagnostics line w) ≤ left w
  pub wait : (w : W) → left (host.sleep w) ≤ left w - 1
  pub submit : (p : Payload) (w : W) → left (resource.task_start p w).1 ≤ left w
  pub print : (line : Line) (w : W) → left (host.write_output line w).1 ≤ left w

module _ {W : Type 0} (host : Host W) (resource : QuantumResource W) (left : W → ℕ)
    (expires : Expires host resource left) where
  abbrev Ended : Option (Result RunnerError (Unit {0})) × W → Type 0
  Ended o = (r : Result RunnerError (Unit {0})) × (o.0 ≡ some r)

  -- A round that asks for another has not used up the time, nor added to it.
  abbrev Progress : ℕ → Round × W → Type 0
  Progress n (finished r, w) = Unit
  Progress n (again, w) = (left w ≤ n) × (n ≢ 0)

  written-Progress :
      (n : ℕ) (r : Result Text (Unit {0})) (w : W) → Progress n (written host resource (r, w))
  written-Progress n (ok u) w = tt
  written-Progress n (err e) w = tt

  announced-Progress :
      (n : ℕ) (path : Text) (r : Result Text (Unit {0})) (w : W)
      → Progress n (announced host resource path (r, w))
  announced-Progress n path (ok u) w =
      let (r, w') = host.write_output (wrote_output path) w in written-Progress n r w'
  announced-Progress n path (err e) w = tt

  fetched-Progress :
      (n : ℕ) (out : Option Text) (r : Result QrmiError Text) (w : W)
      → Progress n (fetched host resource out (r, w))
  fetched-Progress n none (ok value) w =
      let (r, w') = host.write_output (result_value value) w in written-Progress n r w'
  fetched-Progress n (some path) (ok value) w =
      let (r, w') = host.write_file path value w in announced-Progress n path r w'
  fetched-Progress n out (err e) w = tt

  on_status-Progress :
      (n : ℕ) (out : Option Text) (id : Text) (r : Result QrmiError TaskStatus) (w : W)
      → left w ≤ n
      → (n ≢ 0) ⊎ IsFinal r
      → Progress n (on_status host resource out id (r, w))
  unfolding on_status
  on_status-Progress n out id (ok completed) w h d =
      let (r, w') = resource.task_result id w in fetched-Progress n out r w'
  on_status-Progress n out id (ok failed) w h d = tt
  on_status-Progress n out id (ok cancelled) w h d = tt
  on_status-Progress n out id (ok queued) w h (inl d) = (h, d)
  on_status-Progress n out id (ok running) w h (inl d) = (h, d)
  on_status-Progress n out id (err e) w h (inl d) =
      (le_trans (expires.tell (status_failed e) w) h, d)
  on_status-Progress n out id (ok queued) w h (inr d) = elim d [ ]
  on_status-Progress n out id (ok running) w h (inr d) = elim d [ ]
  on_status-Progress n out id (err e) w h (inr d) = elim d [ ]

  Timely : ℕ → Text → Bool → W → Type 0
  Timely n id b w = (n ≢ 0) ⊎ ((b ≡ false) ⊎ IsFinal (resource.task_status id w).0)

  on_flag-Progress :
      (n : ℕ) (out : Option Text) (id : Text) (b : Bool) (w : W)
      → left w ≤ n
      → Timely n id b w
      → Progress n (on_flag host resource out id (b, w))
  unfolding Timely
  on_flag-Progress n out id false w h d = tt
  on_flag-Progress n out id true w h d =
      let (r, w') = resource.task_status id w in
      on_status-Progress n out id r w' (le_trans (expires.ask id w) h) (in_time d)
    where
      in_time : Timely n id true w → (n ≢ 0) ⊎ IsFinal (resource.task_status id w).0
      in_time (inl d) = inl d
      in_time (inr (inl e)) = inl cc
      in_time (inr (inr f)) = inr f

  in_time : (id : Text) (w : W) → Timely (left w) id (host.is_running w).0 (host.is_running w).1
  unfolding Timely
  in_time id w = elim (ℕ_discrete (left w) 0) [ yes e ↦ inr (expires.due id w e) | no ne ↦ inl ne ]

  proceed-Ended :
      (n fuel : ℕ) (later : W → Option (Result RunnerError (Unit {0})) × W)
      → ((w : W) → left w < fuel → Ended (later w))
      → n < suc fuel
      → (r : Round) (w : W) → Progress n (r, w)
      → Ended (proceed host resource later (r, w))
  proceed-Ended n fuel later ih h (finished r) w g = (r, refl)
  proceed-Ended n fuel later ih h again w (g, ne) =
      ih (host.sleep w) (omega (arith, expires.wait w))

  poll-Ended :
      (fuel : ℕ) (out : Option Text) (id : Text) (w : W)
      → left w < fuel
      → Ended (poll host resource fuel out id w)
  unfolding poll
  poll-Ended zero out id w h = elim h [ ]
  poll-Ended (suc fuel) out id w h =
      let (b, w') = host.is_running w in
      let (r, w'') = round host resource out id w in
      proceed-Ended (left w) fuel (poll host resource fuel out id) (λ v. poll-Ended fuel out id v) h
        r w'' (on_flag-Progress (left w) out id b w' (expires.read_flag w) (in_time id w))

  watched-Ended :
      (fuel : ℕ) (out : Option Text) (id : Text) (r : Result Text (Unit {0})) (w : W)
      → left w < fuel
      → Ended (watched host resource fuel out id (r, w))
  watched-Ended fuel out id (ok u) w h = poll-Ended fuel out id w h
  watched-Ended fuel out id (err e) w h = (err (io e), refl)

  clean_up-Ended :
      (id : Text) (r : Option (Result RunnerError (Unit {0}))) (w : W)
      → Ended (r, w)
      → Ended (clean_up host resource id (r, w))
  unfolding clean_up
  clean_up-Ended id none w (r, e) = cc
  clean_up-Ended id (some r) w e = (r, refl)

  started-Ended :
      (fuel : ℕ) (out : Option Text) (r : Result QrmiError Text) (w : W)
      → left w < fuel
      → Ended (started host resource fuel out (r, w))
  started-Ended fuel out (ok id) w h =
      let (r, w1) = host.write_output (task_id id) w in
      let (o, w2) = watched host resource fuel out id (r, w1) in
      clean_up-Ended id o w2
        (watched-Ended fuel out id r w1 (omega (arith, expires.print (task_id id) w)))
  started-Ended fuel out (err e) w h = (err (call_failed e), refl)

  -- A run ends, with a result, on any fuel above the number of sleeps after which the flag has been
  -- cleared or the service reports that the task has ended.
  pub run_task_ends :
      (fuel : ℕ) (p : Payload) (out : Option Text) (w : W)
      → left w < fuel
      → (r : Result RunnerError (Unit {0})) × ((run_task host resource fuel p out w).0 ≡ some r)
  unfolding run_task
  run_task_ends fuel p out w h =
      let (r, w1) = resource.task_start p w in
      started-Ended fuel out r w1 (omega (arith, expires.submit p w))
