-- ===== src/Ibm/Compute/Sessions.antt =====
-- `acquire` and `release`: a session is taken and given back.
pub mod Outcome
pub mod Acquisition
pub mod Promises
use qrmi.Prelude.{
  Bool, true, false, not, Option, none, some, List, is_empty, unwrap_or, if◌then◌else◌,
}
use qrmi.Prelude.Int.{pos, ltb_ℤ, quot}
use qrmi.Text.{Text, codes, eq_text, to_ascii_lowercase}
use qrmi.Result.{Result, ok, err}
use qrmi.Exec.{Exec, ◌>>=◌, ◌>>◌, return, lift, get, modify}
use qrmi.Errors.{QrmiError, invalid_session_mode}
use qrmi.Ibm.Api.{Api, Session, Mode, Job, JobsQuery, CreateSession, session}
use qrmi.Ibm.Compute.State.{Service, configuration, renew, call}

-- The one jobs of a session that are pending.
abbrev pub pending_of : Text → JobsQuery
pending_of id = record {
  version = none;
  limit = none;
  offset = none;
  pending = some true;
  backend = none;
  sort = none;
  session_id = some id;
  exclude_params = none;
}

abbrev pub any_pending : Option (List Job) → Bool
any_pending none = false
any_pending (some jobs) = not (is_empty jobs)

-- `max_ttl / 100 < active_ttl`
abbrev pub still_active : Session → Bool
still_active response =
    ltb_ℤ (quot (unwrap_or response.max_ttl (pos 1)) 100) (unwrap_or response.active_ttl (pos 1))

-- A mode is compared without case. The error's text is the mode in lower case, here of ASCII.
unfoldable pub mode_of : Text → Result QrmiError Mode
unfolding eq_text to_ascii_lowercase
mode_of session_mode =
    let lower = to_ascii_lowercase session_mode in
    if eq_text lower (codes "batch")
    then ok Mode.batch
    else if eq_text lower (codes "dedicated")
    then ok Mode.dedicated
    else err (QrmiError.ibm (invalid_session_mode lower))

module _ {V Value Params Document : Type 0} (api : Api V Value Params Document) where
  abbrev Run : Type 0 → Type 0
  Run A = Exec (Service × V) QrmiError A

  abbrev pub set_session : Option Text → Service × V → Service × V
  set_session id (self, v) = (record self { session_id = id }, v)

  -- A session with pending jobs is cancelled, another one closed.
  abbrev pub end_session : Text → Bool → Run (Unit {0})
  end_session id true = call api session (λ self. api.delete_session_close (configuration self) id)
  end_session id false = call api session (λ self. api.update_session (configuration self) id false)

  unfoldable pub release : Text → Run (Unit {0})
  unfolding renew
  release acquisition_token = do
    renew api
    jobs ←
        call api session (λ self. api.list_jobs (configuration self) (pending_of acquisition_token))
    end_session acquisition_token (any_pending jobs)
    modify (set_session none)

  abbrev pub kept : Text → Session → Run (Option Text)
  kept id response =
      if still_active response then return (some id) else (do release id; return none)

  -- The session that the service has, if it goes on; one that has run out is released.
  abbrev pub reuse : Option Text → Run (Option Text)
  reuse none = return none
  reuse (some id) = do
    response ← call api session (λ self. api.get_session (configuration self) id none)
    kept id response

  abbrev pub requested : Service → Mode → CreateSession
  requested self mode = record {
    max_ttl = self.session_max_ttl;
    mode = mode;
    backend = self.backend_name;
    backend_name = self.backend_name;
  }

  unfoldable pub open_session : Run Text
  unfolding mode_of
  open_session = do
    (self, v) ← get
    mode ← lift (mode_of self.session_mode)
    response ←
        call api session (λ self. api.create_session (configuration self) (requested self mode))
    modify (set_session (some response.id))
    return response.id

  abbrev pub opened : Option Text → Run Text
  opened (some id) = return id
  opened none = open_session

  unfoldable pub acquire : Run Text
  unfolding renew release open_session
  acquire = do renew api; (self, v) ← get; existing ← reuse self.session_id; opened existing
