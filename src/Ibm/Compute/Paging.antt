-- ===== src/Ibm/Compute/Paging.antt =====
-- `has_dedicated_active_session` (src/ibm/quantum_compute_service.rs): whether a running job is in
-- an active dedicated session, over the pages of the list of jobs.
pub mod Laws
pub mod Answer
use qrmi.Prelude.{
  ℕ, zero, suc, ◌+◌, ◌-◌, ◌%◌, ◌^◌, Bool, true, false, ◌||◌, Option, none, some, List, [], ◌∷◌,
  unwrap_or, length, ltb, leb, if◌then◌else◌,
}
use qrmi.Text.{Text, codes}
use qrmi.Result.{Result, ok, err}
use qrmi.Exec.{Exec, ◌>>=◌, return}
use qrmi.Errors.{QrmiError}
use qrmi.Ibm.Api.{
  Api, Job, JobStatus, JobsQuery, Session, SessionState, Mode, ResourceKind, active, dedicated,
}
use qrmi.Ibm.Compute.State.{Service, configuration, call}

abbrev pub version : Option Text
version = some (codes "2025-01-01")

-- `PAGE_SIZE` is 200.
abbrev pub page_at : Text → ℕ → JobsQuery
page_at backend_name offset = record {
  version = version;
  limit = some 200;
  offset = some offset;
  pending = some true;
  backend = some backend_name;
  sort = some (codes "DESC");
  session_id = none;
  exclude_params = some true;
}

abbrev pub max_offset : ℕ
max_offset = 2147483647

abbrev pub is_dedicated : Mode → Bool
is_dedicated dedicated = true
is_dedicated Mode.batch = false

-- `state == Some(Active) && mode == Dedicated`
abbrev pub is_dedicated_active : Option SessionState → Mode → Bool
is_dedicated_active (some active) mode = is_dedicated mode
is_dedicated_active _ mode = false

-- `(page_len as i32) < PAGE_SIZE`: the cast keeps 32 bits, of which the first is the sign.
abbrev pub is_short : ℕ → Bool
is_short page_len = let bits = page_len % 2 ^ 32 in ltb bits 200 || leb (2 ^ 31) bits

-- Of the outcome `none` the fuel ran out.
abbrev pub Looped : Type 0 → Type 0
Looped S = Option (Result QrmiError Bool) × S

-- 200 * 10737419 is more than the largest offset.
abbrev pub scan_fuel : ℕ
scan_fuel = 10737419

module _ {V Value Params Document : Type 0} (api : Api V Value Params Document) where
  abbrev Run : Type 0 → Type 0
  Run A = Exec (Service × V) QrmiError A

  abbrev pub on_job : JobStatus → Option Text → Run Bool → Run Bool
  on_job JobStatus.running (some session_id) later = do
    response ←
        call api ResourceKind.session
          (λ self. api.get_session (configuration self) session_id version)
    if is_dedicated_active response.state response.mode then return true else later
  on_job _ _ later = later

  -- The loop over a page.
  unfoldable pub active_among : List Job → Run Bool
  active_among [] = return false
  active_among (job ∷ jobs) = on_job job.status job.session_id (active_among jobs)

  module _ (later : ℕ → Service × V → Looped (Service × V)) (offset : ℕ) where
    abbrev pub scanned : ℕ → Result QrmiError Bool × (Service × V) → Looped (Service × V)
    scanned page_len (ok true, s) = (some (ok true), s)
    scanned page_len (ok false, s) =
        if is_short page_len
        then (some (ok false), s)
        else if ltb (max_offset - 200) offset
        then (some (ok false), s)
        else later (offset + 200) s
    scanned page_len (err e, s) = (some (err e), s)

    abbrev pub listed : Result QrmiError (Option (List Job)) × (Service × V) → Looped (Service × V)
    listed (ok jobs, s) =
        let jobs = unwrap_or jobs [] in scanned (length jobs) (active_among jobs s)
    listed (err e, s) = (some (err e), s)

  -- The loop over the pages.
  unfoldable pub scan : ℕ → ℕ → Service × V → Looped (Service × V)
  unfolding active_among
  scan zero offset s = (none, s)
  scan (suc fuel) offset s = listed (scan fuel) offset (
      call api ResourceKind.job
        (λ self. api.list_jobs (configuration self) (page_at self.backend_name offset)) s)

  abbrev pub settled : Looped (Service × V) → Result QrmiError Bool × (Service × V)
  settled (none, s) = (ok false, s)
  settled (some r, s) = (r, s)

  unfoldable pub has_dedicated_active_session : Run Bool
  unfolding scan
  has_dedicated_active_session s = settled (scan scan_fuel 0 s)
