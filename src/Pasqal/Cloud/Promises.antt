-- ===== src/Pasqal/Cloud/Promises.antt =====
-- What starting a task does on each branch (src/pasqal/cloud.rs), in the terms in which src/error.rs
-- explains the kinds of error.
use qrmi.Prelude.{sym, ◌≡◌, ◌≢◌, ◌⊎◌, inl, inr, refl, Bool, true, false, some, ◌∷◌, Bool-cases}
use qrmi.Prelude.Int.{ℤ}
use qrmi.Text.{Text, eq_text, eq_text_iff, eq_text_refl}
use qrmi.Result.{Result, ok, err, Result-cases}
use qrmi.Exec.{Post, continue}
use qrmi.Errors.{QrmiError, QrmiErrorKind, Message}
use qrmi.Errors.Kinds.{kind}
use qrmi.Models.{Payload, pasqal_cloud}
use qrmi.Pasqal.Client.{Libraries, Client}
use qrmi.Pasqal.Client.Requests.{
  DeviceType, Models, get_batch_results, create_cudaq_job, create_batch,
}
use qrmi.Pasqal.Cloud.{
  PasqalTaskKind, pulser, cudaq, TaskKinds, kind_in, PasqalCloud, Json, is_cudaq_sequence,
  parse_device_type,
}
use qrmi.Pasqal.Cloud.Tasks.{
  task_start, submit, remember, called, task_result, task_kind, task_result_from_cudaq, call,
}

-- The kind of task that a sequence asks for.
abbrev pub sequence_kind : Bool → PasqalTaskKind
sequence_kind true = cudaq
sequence_kind false = pulser

abbrev pub payload_kind : {Value : Type 0} → Json Value → Payload → PasqalTaskKind
payload_kind json (pasqal_cloud sequence job_runs) = sequence_kind (is_cudaq_sequence json sequence)
payload_kind json _ = pulser

kind_in_same :
    (k : PasqalTaskKind) (id : Text) (kinds : TaskKinds) → kind_in ((id, k) ∷ kinds) id ≡ some k
unfolding kind_in
kind_in_same k id kinds = rw (eq_text_refl id)

kind_in_other :
    (k : PasqalTaskKind) (id : Text) (kinds : TaskKinds) (other : Text)
    → other ≢ id
    → kind_in ((id, k) ∷ kinds) other ≡ kind_in kinds other
unfolding kind_in
kind_in_other k id kinds other n = elim (Bool-cases (eq_text id other)) [
  | inl e ↦ absurd (n (sym ((eq_text_iff id other).0 e)))
  | inr e ↦ rw e
]

module _ {V Value Specs JobResult : Type 0} (lib : Libraries V Value)
    (models : Models Value Specs JobResult) (json : Json Value) where
  -- The map knows the new task's kind, and of the other tasks what it knew.
  pub record Recorded (kinds : TaskKinds) (kind : PasqalTaskKind) (id : Text) (self' : PasqalCloud)
      : Type 0 where
    pub recorded : kind_in self'.task_kinds id ≡ some kind
    pub others : (other : Text) → other ≢ id → kind_in self'.task_kinds other ≡ kind_in kinds other

  module _ (self : PasqalCloud) (v : V) where
    -- Either the error is of the kind `Other`, or nothing was sent and nothing has changed.
    abbrev pub Untouched : QrmiError → PasqalCloud × V → Type 0
    Untouched e s = (kind e ≡ QrmiErrorKind.other) ⊎ (s ≡ (self, v))

    abbrev pub Started : PasqalTaskKind → Result QrmiError Text × (PasqalCloud × V) → Type 0
    Started k = Post (λ id s. Recorded self.task_kinds k id s.0) Untouched

    remember-called-Started :
        (k : PasqalTaskKind) (o : Result Message Text × (Client × V))
        → Started k (continue (called lib models json self o) (remember lib models json k))
    unfolding kind
    remember-called-Started k (err e, (client, v')) = inl refl
    remember-called-Started k (ok id, (client, v')) = record {
      recorded = kind_in_same k id self.task_kinds;
      others = kind_in_other k id self.task_kinds;
    }

    submit-Started :
        (sequence : Text) (job_runs : ℤ) (device_type : DeviceType)
        → Started
            (sequence_kind (is_cudaq_sequence json sequence))
            (submit lib models json sequence job_runs device_type (self, v))
    submit-Started sequence job_runs device_type =
        elim (Bool-cases (is_cudaq_sequence json sequence)) [
          | inr b ↦ rw b (
              remember-called-Started pulser
                (create_batch lib models sequence job_runs device_type (self.api_client, v)))
          | inl b ↦ elim (Result-cases (json.from_str sequence)) [
            | inr (e, r) ↦ rw (b, r) (inr refl)
            | inl (value, r) ↦
                rw (b, r)
                  (remember-called-Started cudaq
                    (create_cudaq_job lib models value job_runs device_type (self.api_client, v)))
          ]
        ]

    -- If `task_start` succeeds, the task's kind is recorded, CUDA-Q for a sequence with the members
    -- `setup` and `hamiltonian` and Pulser for any other, and the kinds of other tasks stay. If it
    -- fails with an error of a kind other than `Other`, nothing was sent and nothing has changed.
    pub task_start-Started :
        (payload : Payload)
        → Started (payload_kind json payload) (task_start lib models json payload (self, v))
    unfolding task_start
    task_start-Started (pasqal_cloud sequence job_runs) =
        elim (Result-cases (parse_device_type lib.to_uppercase self.backend_name)) [
          | inr (e, r) ↦ rw r (inr refl)
          | inl (device_type, r) ↦ rw r (submit-Started sequence job_runs device_type)
        ]
    task_start-Started _ = inr refl

  -- Where the result of a task is asked for: at the endpoint of the CUDA-Q jobs, or of the batches.
  abbrev pub AskedAt : Bool → Text → PasqalCloud × V → Type 0
  AskedAt true id s = task_result lib models json id s ≡ task_result_from_cudaq lib models json id s
  AskedAt false id s =
      task_result lib models json id s ≡ call lib models json (get_batch_results lib models id) s

  kind-AskedAt :
      (b : Bool) (id : Text) (s : PasqalCloud × V)
      → kind_in s.0.task_kinds id ≡ some (sequence_kind b)
      → AskedAt b id s
  unfolding task_result task_kind
  kind-AskedAt true id s h = rw h
  kind-AskedAt false id s h = rw h

  -- The result of a task that `task_start` has started is asked for at the endpoint of the CUDA-Q
  -- jobs if its sequence has the members `setup` and `hamiltonian`, else at that of the batches, in
  -- every later world and whatever happens to the client in between.
  pub task_result-task_start :
      (sequence : Text) (job_runs : ℤ) (self self' : PasqalCloud) (v v' w : V) (client : Client)
      (id : Text)
      → task_start lib models json (pasqal_cloud sequence job_runs) (self, v) ≡ (ok id, (self', v'))
      → AskedAt (is_cudaq_sequence json sequence) id (record self' { api_client = client }, w)
  task_result-task_start sequence job_runs self self' v v' w client id h =
      let started = rw h at (task_start-Started self v (pasqal_cloud sequence job_runs)) in
      kind-AskedAt (is_cudaq_sequence json sequence) id (record self' { api_client = client }, w)
        started.recorded
