-- ===== src/Pasqal/Local/Promises.antt =====
-- How the resource of Pasqal Local is built, and what starting a task does (src/pasqal/local.rs).
use qrmi.Prelude.{◌≡◌, ◌⊎◌, inl, inr, refl, Option, none, some, ◌++◌, Option-cases}
use qrmi.Prelude.Int.{ℤ}
use qrmi.Text.{Text, codes, parse_i32, print_ℤ}
use qrmi.Exec.{Post}
use qrmi.Result.{Result, ok, err}
use qrmi.Errors.{QrmiError, QrmiErrorKind, Message}
use qrmi.Errors.Kinds.{kind}
use qrmi.Models.{Payload, pasqal_cloud}
use qrmi.Settings.{resolve_opt_required, Env, Config, resolve_opt, not_found_error}
use qrmi.Pasqal.Local.Client.{Libraries, JobResponse, create_job}
use qrmi.Pasqal.Local.{
  PasqalLocal, prefix, warden_url_var, legacy_url_var, from_opt, warden_url, with_url, read_job_uid,
  acquisition_token, task_start, submit, called, resolve_opt_required,
}

module _ (env : Env) (backend_name : Text) (config : Option Config) where
  abbrev setting : Text → Option Text
  setting key = resolve_opt env key config

  -- The address of the middleware: the new name's setting, else the old one's.
  abbrev pub IsUrl : Text → Type 0
  IsUrl url =
      (resolve_opt env (warden_url_var backend_name config) config ≡ some url)
      ⊎ ((resolve_opt env (warden_url_var backend_name config) config ≡ none)
          × (resolve_opt env (legacy_url_var backend_name config) config ≡ some url))

  -- What the settings make of the resource, in the order in which they are read.
  pub data IsConfigured : Result QrmiError PasqalLocal → Type 0 where
    no_url :
        resolve_opt env (warden_url_var backend_name config) config ≡ none
        → resolve_opt env (legacy_url_var backend_name config) config ≡ none
        → IsConfigured (err (not_found_error (warden_url_var backend_name config) config))
    no_uid :
        {url : Text}
        → IsUrl url
        → resolve_opt env (codes "QRMI_JOB_UID") config ≡ none
        → IsConfigured (err (not_found_error (codes "QRMI_JOB_UID") config))
    bad_uid :
        {url uid_text : Text}
        → IsUrl url
        → resolve_opt env (codes "QRMI_JOB_UID") config ≡ some uid_text
        → parse_i32 uid_text ≡ none
        → IsConfigured (err (QrmiError.parse_error (codes "QRMI_JOB_UID") uid_text))
    no_job :
        {url uid_text : Text} {uid : ℤ}
        → IsUrl url
        → resolve_opt env (codes "QRMI_JOB_UID") config ≡ some uid_text
        → parse_i32 uid_text ≡ some uid
        → resolve_opt env (codes "QRMI_JOB_ID") config ≡ none
        → IsConfigured (err (not_found_error (codes "QRMI_JOB_ID") config))
    complete :
        {url uid_text job : Text} {uid : ℤ}
        → IsUrl url
        → resolve_opt env (codes "QRMI_JOB_UID") config ≡ some uid_text
        → parse_i32 uid_text ≡ some uid
        → resolve_opt env (codes "QRMI_JOB_ID") config ≡ some job
        → IsConfigured (
            ok (record {
              base_url = url;
              backend_name = backend_name;
              job_uid = uid;
              job_id = job;
              acquisition_token =
                  resolve_opt env
                    (prefix backend_name config ++ codes "QRMI_JOB_ACQUISITION_TOKEN")
                    config;
            }))

  with_url-IsConfigured :
      (url : Text) → IsUrl url → IsConfigured (with_url env backend_name config (ok url))
  unfolding read_job_uid resolve_opt_required
  with_url-IsConfigured url u =
      elim (Option-cases (resolve_opt env (codes "QRMI_JOB_UID") config)) [
        | inl a ↦ rw a (no_uid u a)
        | inr (uid_text, a) ↦ elim (Option-cases (parse_i32 uid_text)) [
          | inl b ↦ rw (a, b) (bad_uid u a b)
          | inr (uid, b) ↦ elim (Option-cases (resolve_opt env (codes "QRMI_JOB_ID") config)) [
            | inl c ↦ rw (a, b, c) (no_job u a b c)
            | inr (job, c) ↦ rw (a, b, c) (complete u a b c)
          ]
        ]
      ]

  -- The resource takes the address of the middleware from its setting, else from the old name of that
  -- setting, then the number of the user, which is a 32-bit integer, and then the job, and holds the
  -- session if one is set; the first of the three that is missing, or a number out of range, is the
  -- error, and for the address the error names the new setting.
  from_opt-IsConfigured : IsConfigured (from_opt env backend_name config)
  unfolding from_opt warden_url resolve_opt_required
  from_opt-IsConfigured =
      elim (Option-cases (resolve_opt env (warden_url_var backend_name config) config)) [
        | inr (url, a) ↦ rw a (with_url-IsConfigured url (inl a))
        | inl a ↦
            elim (Option-cases (resolve_opt env (legacy_url_var backend_name config) config)) [
              | inr (url, b) ↦ rw (a, b) (with_url-IsConfigured url (inr (a, b)))
              | inl b ↦ rw (a, b) (no_url a b)
            ]
      ]

module _ {V : Type 0} (lib : Libraries V) (env : Env) (self : PasqalLocal) (payload : Payload)
    (v : V) where
  -- A job of the payload was created, in the session that the resource holds.
  pub record IsCreated (id : Text) (v' : V) : Type 0 where
    pub session : Text
    pub sequence : Text
    pub job_runs : ℤ
    pub job : JobResponse
    pub held : acquisition_token lib env self ≡ ok session
    pub program : payload ≡ pasqal_cloud sequence job_runs
    pub response : create_job lib self.base_url sequence job_runs session v ≡ (ok job, v')
    pub named : id ≡ print_ℤ job.id

  abbrev pub Submitted : Result QrmiError Text × V → Type 0
  Submitted = Post IsCreated (λ e v'. (kind e ≡ QrmiErrorKind.other) ⊎ (v' ≡ v))

  called-Submitted :
      (session sequence : Text) (job_runs : ℤ) (o : Result Message JobResponse × V)
      → acquisition_token lib env self ≡ ok session
      → payload ≡ pasqal_cloud sequence job_runs
      → create_job lib self.base_url sequence job_runs session v ≡ o
      → Submitted (called lib env self (λ (job : JobResponse). ok (print_ℤ job.id)) o)
  unfolding kind
  called-Submitted session sequence job_runs (err e, v') h p c = inl refl
  called-Submitted session sequence job_runs (ok job, v') h p c = record {
    session = session;
    sequence = sequence;
    job_runs = job_runs;
    job = job;
    held = h;
    program = p;
    response = c;
    named = refl;
  }

  submit-Submitted :
      (r : Result QrmiError Text) (p : Payload)
      → acquisition_token lib env self ≡ r
      → payload ≡ p
      → Submitted (submit lib env self r p v)
  submit-Submitted (err e) p h q = inr refl
  submit-Submitted (ok session) (pasqal_cloud sequence job_runs) h q =
      called-Submitted session sequence job_runs
        (create_job lib self.base_url sequence job_runs session v) h q refl
  submit-Submitted (ok session) _ h q = inr refl

  -- If `task_start` succeeds, one job of the payload was created in the session that the resource
  -- holds, and the task is named after it. If it fails with an error of a kind other than `Other`,
  -- nothing was sent.
  pub task_start-Submitted : Submitted (task_start lib env self payload v)
  unfolding task_start
  task_start-Submitted = submit-Submitted (acquisition_token lib env self) payload refl refl
