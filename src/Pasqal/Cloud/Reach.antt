-- ===== src/Pasqal/Cloud/Reach.antt =====
-- The states that the resource comes to by calls of its methods (src/pasqal/cloud.rs), and the
-- header that its client holds in them.
use qrmi.Prelude.{◌≡◌, refl, inl, inr, Option, Bool-cases, arith}
use qrmi.Prelude.Int.{ℤ}
use qrmi.Text.{Text}
use qrmi.Result.{Result, ok, err, Result-cases}
use qrmi.Exec.{Exec, Post, continue, continue-Post, lift, lift-Post}
use qrmi.Errors.{QrmiError, Message}
use qrmi.Models.{Payload, pasqal_cloud}
use qrmi.Settings.{Env}
use qrmi.Pasqal.File.{PasqalCloudConfig}
use qrmi.Pasqal.Client.{Libraries, Client, make_auth_header}
use qrmi.Pasqal.Client.Header.{
  IsBearer, Always, authenticated-Always, get_device-Always, get_batch_results-Always,
  get_device_specs-Always,
}
use qrmi.Pasqal.Client.Requests.{
  DeviceType, Models, create_cudaq_job, create_batch, cancel_batch, get_batch, get_job,
  get_cudaq_job,
}
use qrmi.Pasqal.Cloud.{
  PasqalTaskKind, pulser, cudaq, PasqalCloud, Json, is_cudaq_sequence, parse_device_type,
}
use qrmi.Pasqal.Cloud.Build.{
  configured, from_pasqal_cloud_config, build_client, with_header, new_cloud,
}
use qrmi.Pasqal.Cloud.Tasks.{
  is_accessible, task_start, task_stop, task_status, task_result, target, task_status_from_job_id,
  task_status_from_batch_id, task_result_from_cudaq, task_kind, called, in_context, remember,
  first_job, submit, result_by,
}

module _ {V Value Specs JobResult : Type 0} (lib : Libraries V Value)
    (models : Models Value Specs JobResult) (json : Json Value) where
  abbrev Sound : PasqalCloud × V → Type 0
  Sound s = IsBearer lib s.0.api_client

  abbrev Keeps : {A : Type 0} → Result QrmiError A × (PasqalCloud × V) → Type 0
  Keeps = Post (λ a s. Sound s) (λ e s. Sound s)

  continue-Keeps :
      {A B : Type 0} (o : Result QrmiError A × (PasqalCloud × V))
      (f : A → Exec (PasqalCloud × V) QrmiError B)
      → Keeps o
      → ((a : A) (s : PasqalCloud × V) → Sound s → Keeps (f a s))
      → Keeps (continue o f)
  continue-Keeps o f h k = continue-Post (λ a s. Sound s) (λ b s. Sound s) (λ e s. Sound s) o f h k

  called-Keeps :
      {A : Type 0} (self : PasqalCloud) (o : Result Message A × (Client × V))
      → Always lib o
      → Keeps (called lib models json self o)
  called-Keeps self (ok a, (client, v)) h = h
  called-Keeps self (err e, (client, v)) h = h

  in_context-Keeps :
      {A : Type 0} (o : Result QrmiError A × (PasqalCloud × V))
      → Keeps o
      → Keeps (in_context lib models json o)
  in_context-Keeps (ok a, s) h = h
  in_context-Keeps (err e, s) h = h

  after : {A : Type 0} (o : Result QrmiError A × (PasqalCloud × V)) → Keeps o → Sound o.1
  after (ok a, s) h = h
  after (err e, s) h = h

  module _ (s : PasqalCloud × V) (b : Sound s) where
    is_accessible-Keeps : Keeps (is_accessible lib models json s)
    unfolding is_accessible
    is_accessible-Keeps =
        elim (Result-cases (parse_device_type lib.to_uppercase s.0.backend_name)) [
          | inr (e, r) ↦ rw r b
          | inl (d, r) ↦ rw r (
              continue-Keeps _ _
                (in_context-Keeps _
                  (called-Keeps s.0 _ (get_device-Always lib models d (s.0.api_client, s.1) b)))
                (λ availability t h. h))
        ]

    task_stop-Keeps : (task_id : Text) → Keeps (task_stop lib models json task_id s)
    unfolding task_stop cancel_batch
    task_stop-Keeps task_id =
        called-Keeps s.0 _
          (authenticated-Always lib models models.cancelled _ _ _ (s.0.api_client, s.1) b)

    from_job-Keeps : (job_id : Text) → Keeps (task_status_from_job_id lib models json job_id s)
    unfolding task_status_from_job_id get_job
    from_job-Keeps job_id =
        continue-Keeps _ _
          (called-Keeps s.0 _
            (authenticated-Always lib models models.job_status _ _ _ (s.0.api_client, s.1) b))
          (λ status t h. h)

    target-Keeps : Keeps (target lib models json s)
    unfolding target
    target-Keeps = elim (Result-cases (parse_device_type lib.to_uppercase s.0.backend_name)) [
      | inr (e, r) ↦ rw r b
      | inl (d, r) ↦
          rw r (called-Keeps s.0 _ (get_device_specs-Always lib models d (s.0.api_client, s.1) b))
    ]

    result_by-Keeps :
        (k : PasqalTaskKind) (task_id : Text) → Keeps (result_by lib models json k task_id s)
    unfolding task_result_from_cudaq get_cudaq_job
    result_by-Keeps pulser task_id =
        called-Keeps s.0 _ (get_batch_results-Always lib models task_id (s.0.api_client, s.1) b)
    result_by-Keeps cudaq task_id =
        continue-Keeps _ _
          (called-Keeps s.0 _
            (authenticated-Always lib models models.cudaq_result _ _ _ (s.0.api_client, s.1) b))
          (λ result t h. h)

    task_result-Keeps : (task_id : Text) → Keeps (task_result lib models json task_id s)
    unfolding task_result
    task_result-Keeps task_id =
        result_by-Keeps (task_kind lib models json s.0.task_kinds task_id) task_id

    remembered-Keeps :
        (k : PasqalTaskKind) (o : Result Message Text × (Client × V))
        → Always lib o
        → Keeps (continue (called lib models json s.0 o) (remember lib models json k))
    remembered-Keeps k o h = continue-Keeps _ _ (called-Keeps s.0 o h) (λ id t h. h)

    submit-Keeps :
        (sequence : Text) (job_runs : ℤ) (d : DeviceType)
        → Keeps (submit lib models json sequence job_runs d s)
    unfolding create_batch create_cudaq_job
    submit-Keeps sequence job_runs d = elim (Bool-cases (is_cudaq_sequence json sequence)) [
      | inr n ↦ rw n (
          remembered-Keeps pulser _
            (authenticated-Always lib models models.created _ _ _ (s.0.api_client, s.1) b))
      | inl c ↦ elim (Result-cases (json.from_str sequence)) [
        | inr (e, r) ↦ rw (c, r) b
        | inl (value, r) ↦
            rw (c, r)
              (remembered-Keeps cudaq _
                (authenticated-Always lib models models.created _ _ _ (s.0.api_client, s.1) b))
      ]
    ]

    task_start-Keeps : (payload : Payload) → Keeps (task_start lib models json payload s)
    unfolding task_start
    task_start-Keeps (pasqal_cloud sequence job_runs) =
        elim (Result-cases (parse_device_type lib.to_uppercase s.0.backend_name)) [
          | inr (e, r) ↦ rw r b
          | inl (d, r) ↦ rw r (submit-Keeps sequence job_runs d)
        ]
    task_start-Keeps _ = b

  task_status-Keeps :
      (task_id : Text) (s : PasqalCloud × V)
      → Sound s
      → Keeps (task_status lib models json task_id s)
  unfolding task_status task_status_from_batch_id get_batch
  task_status-Keeps task_id s b =
      continue-Keeps _ _
        (called-Keeps s.0 _
          (authenticated-Always lib models models.batch_data _ _ _ (s.0.api_client, s.1) b))
        (λ answer t h.
          continue-Keeps (lift (first_job lib models json task_id answer) t) _
            (lift-Post Sound (first_job lib models json task_id answer) t h)
            (λ job_id u k. from_job-Keeps u k job_id))

  -- One call of a method, in whatever world the services are by then, and the state after it.
  pub data Step : PasqalCloud → PasqalCloud → Type 0 where
    accessible :
        {self self' : PasqalCloud} (v : V)
        → (is_accessible lib models json (self, v)).1.0 ≡ self'
        → Step self self'
    starts :
        {self self' : PasqalCloud} (payload : Payload) (v : V)
        → (task_start lib models json payload (self, v)).1.0 ≡ self'
        → Step self self'
    stops :
        {self self' : PasqalCloud} (task_id : Text) (v : V)
        → (task_stop lib models json task_id (self, v)).1.0 ≡ self'
        → Step self self'
    polls :
        {self self' : PasqalCloud} (task_id : Text) (v : V)
        → (task_status lib models json task_id (self, v)).1.0 ≡ self'
        → Step self self'
    reads :
        {self self' : PasqalCloud} (task_id : Text) (v : V)
        → (task_result lib models json task_id (self, v)).1.0 ≡ self'
        → Step self self'
    asks_target :
        {self self' : PasqalCloud} (v : V)
        → (target lib models json (self, v)).1.0 ≡ self'
        → Step self self'

  Step-Sound :
      {self self' : PasqalCloud}
      → Step self self'
      → IsBearer lib self.api_client
      → IsBearer lib self'.api_client
  Step-Sound {self = self} (accessible v e) b = rw (← e) (after _ (is_accessible-Keeps (self, v) b))
  Step-Sound {self = self} (starts payload v e) b =
      rw (← e) (after _ (task_start-Keeps (self, v) b payload))
  Step-Sound {self = self} (stops task_id v e) b =
      rw (← e) (after _ (task_stop-Keeps (self, v) b task_id))
  Step-Sound {self = self} (polls task_id v e) b =
      rw (← e) (after _ (task_status-Keeps task_id (self, v) b))
  Step-Sound {self = self} (reads task_id v e) b =
      rw (← e) (after _ (task_result-Keeps (self, v) b task_id))
  Step-Sound {self = self} (asks_target v e) b = rw (← e) (after _ (target-Keeps (self, v) b))

  module _ (build_http_client : Result Text (Unit {0})) (env : Env) (backend_name : Text)
      (cfg : PasqalCloudConfig) where
    -- What comes of the resource that the configuration builds, by any calls in any order.
    pub data Reached : PasqalCloud → Type 0 where
      built :
          {self : PasqalCloud}
          → from_pasqal_cloud_config lib build_http_client env backend_name cfg ≡ ok self
          → Reached self
      then_step : {self self' : PasqalCloud} → Reached self → Step self self' → Reached self'

    new_cloud-IsBearer :
        (name : Text) (client : Client) (http : Result Text (Unit {0}))
        (r : Result Message (Option Text)) (self : PasqalCloud)
        → make_auth_header lib client.auth_token ≡ r
        → new_cloud lib build_http_client name (with_header lib build_http_client client http r)
          ≡ ok self
        → IsBearer lib self.api_client
    new_cloud-IsBearer name client (err e) r self m h = λ h' e'. cc
    new_cloud-IsBearer name client (ok u) (err e) self m h = λ h' e'. cc
    new_cloud-IsBearer name client (ok u) (ok header) self m h = λ h' e'. ground (arith, m, h, e')

    built-IsBearer :
        (self : PasqalCloud)
        → from_pasqal_cloud_config lib build_http_client env backend_name cfg ≡ ok self
        → IsBearer lib self.api_client
    unfolding from_pasqal_cloud_config build_client
    built-IsBearer self e =
        new_cloud-IsBearer backend_name (configured env backend_name cfg) build_http_client
          (make_auth_header lib (configured env backend_name cfg).auth_token) self refl e

    -- In every state that calls of the methods lead to, in any order and whatever the services answer,
    -- the header that the resource's client sends is that of the token which it holds, unless no
    -- header can be made of that token.
    pub Reached-IsBearer : {self : PasqalCloud} → Reached self → IsBearer lib self.api_client
    Reached-IsBearer {self = self} (built e) = built-IsBearer self e
    Reached-IsBearer (then_step r s) = Step-Sound s (Reached-IsBearer r)
