-- ===== src/Oqtopus/Promises.antt =====
-- What `task_start` of OQTOPUS submits (src/oqtopus/lib.rs).
use qrmi.Prelude.{◌≡◌, refl, inl, inr, Bool-cases, false, Option, none, some, any, ◌==◌}
use qrmi.Text.{Text, codes, eq_text, eq_text_iff, eq_text_refl}
use qrmi.Result.{Result, err}
use qrmi.Errors.{QrmiError, QrmiErrorKind}
use qrmi.Errors.Kinds.{kind}
use qrmi.Models.{Payload}
use qrmi.Json.{Value, Fields, end, field, lookup, string, object}
use qrmi.Oqtopus.Config.{Library, insert, c_string}
use qrmi.Oqtopus.Tasks.{Oqtopus, Bridge, call_bridge, task_start, start_spec, start_value, submit}

lookup-insert_self :
    (name : Text) (v : Value) (fields : Fields) → lookup name (insert name v fields) ≡ some v
unfolding lookup insert
lookup-insert_self name v end = rw (eq_text_refl name) refl
lookup-insert_self name v (field k w fields) = elim (Bool-cases (eq_text k name)) [
  | inl e ↦ rw e (rw e refl)
  | inr e ↦ rw e (rw e (lookup-insert_self name v fields))
]

lookup-insert_other :
    (name n : Text) (v : Value) (fields : Fields)
    → eq_text name n ≡ false
    → lookup n (insert name v fields) ≡ lookup n fields
unfolding lookup insert
lookup-insert_other name n v end h = rw h refl
lookup-insert_other name n v (field k w fields) h = elim (Bool-cases (eq_text k name)) [
  | inl e ↦
      let differ : eq_text k n ≡ false = rw ((eq_text_iff k name).0 e) h in rw (e, differ) refl
  | inr e ↦ rw e (rw (lookup-insert_other name n v fields h) refl)
]

module _ {V : Type 0} (lib : Library) (bridge : Bridge V) (self : Oqtopus) (v : V) where
  -- The members of a job are those of the specification, for this device.
  pub record IsFor (spec out : Fields) : Type 0 where
    pub device : lookup (codes "device_id") out ≡ some (string self.device_id)
    pub same : (n : Text) → eq_text (codes "device_id") n ≡ false → lookup n out ≡ lookup n spec

  pub data Asked (payload : Payload) : Result QrmiError Text × V → Type 0 where
    submitted :
        {job_spec : Text} {spec out : Fields}
        → payload ≡ Payload.oqtopus job_spec
        → lib.codec.from_str job_spec ≡ some (object spec)
        → IsFor spec out
        → Asked payload
            (call_bridge lib bridge self (codes "submit_job") (lib.codec.to_string (object out)) v)
    refused : (e : QrmiError) → kind e ≡ QrmiErrorKind.other → Asked payload (err e, v)

  submit-Asked :
      (job_spec : Text) (spec : Fields)
      → lib.codec.from_str job_spec ≡ some (object spec)
      → Asked
          (Payload.oqtopus job_spec)
          (submit lib bridge self (insert (codes "device_id") (string self.device_id) spec) v)
  unfolding c_string kind
  submit-Asked job_spec spec read =
      let out = insert (codes "device_id") (string self.device_id) spec in
      elim (Bool-cases (any (λ c. c == 0) (lib.codec.to_string (object out)))) [
        | inl e ↦ rw e (refused _ refl)
        | inr e ↦ rw e (
            submitted refl read (record {
              device = lookup-insert_self (codes "device_id") (string self.device_id) spec;
              same =
                  λ n h. lookup-insert_other (codes "device_id") n (string self.device_id) spec h;
            }))
      ]

  start_value-Asked :
      (job_spec : Text) (value : Value)
      → lib.codec.from_str job_spec ≡ some value
      → Asked (Payload.oqtopus job_spec) (start_value lib bridge self value v)
  unfolding kind
  start_value-Asked job_spec (object spec) read = submit-Asked job_spec spec read
  start_value-Asked job_spec _ read = refused _ refl

  start_spec-Asked :
      (job_spec : Text) (o : Option Value)
      → lib.codec.from_str job_spec ≡ o
      → Asked (Payload.oqtopus job_spec) (start_spec lib bridge self job_spec o v)
  unfolding kind
  start_spec-Asked job_spec (some value) read = start_value-Asked job_spec value read
  start_spec-Asked job_spec none read = refused _ refl

  -- `task_start` either asks the bridge once for a job, which has the members that the payload gives,
  -- but for the device's id, which is that of the resource; or it calls nothing and the error is of
  -- the kind `Other`.
  pub task_start-Asked : (payload : Payload) → Asked payload (task_start lib bridge self payload v)
  unfolding task_start kind
  task_start-Asked (Payload.oqtopus job_spec) =
      start_spec-Asked job_spec (lib.codec.from_str job_spec) refl
  task_start-Asked _ = refused _ refl
