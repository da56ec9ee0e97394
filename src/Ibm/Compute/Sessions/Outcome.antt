-- ===== src/Ibm/Compute/Sessions/Outcome.antt =====
-- What `acquire` and `release` leave behind: which session the service holds, and which sessions are
-- open.
use qrmi.Prelude.{
  ℕ, ◌+◌, ◌%◌, ◌^◌, ◌/◌, ◌≡◌, ◌≢◌, ◌⊎◌, Bool, true, false, Option, none, some, ltb, Bool-cases, inl,
  inr, ap,
}
use qrmi.Text.{Text}
use qrmi.Result.{Result, ok, err}
use qrmi.Exec.{Exec, Post, continue-Post, modify}
use qrmi.Ibm.Api.{Api, ApiError, ResourceKind, session, Configuration, JobsQuery, CreateSession}
use qrmi.Ibm.Compute.State.{
  Service, Token, configuration, renew, call, called, checked, fetched, max, check_token,
}
use qrmi.Ibm.Compute.Sessions.{pending_of, any_pending, set_session, end_session, release}

-- The service says that it does not do what it was asked. After any other error, of the server or of
-- the way to it, it may have done it.
abbrev pub refuses : ApiError → Bool
refuses (ApiError.response_error status body) = ltb status 500
refuses (ApiError.transport message) = false

-- What the service documents of the sessions that are open, `IsOpen v id` in the world `v`: a session
-- opens only when it is created, not by a request that is refused, and it is not open once it has been cancelled or closed.
pub record Ledger {V Value Params Document : Type 0} (api : Api V Value Params Document)
    (IsOpen : V → Text → Type 0) : Type 0 where
  pub clock : (v : V) (x : Text) → IsOpen (api.current_unix_timestamp v).1 x → IsOpen v x
  pub token :
      (key endpoint : Text) (v : V) (x : Text)
      → IsOpen (api.fetch_access_token key endpoint v).1 x
      → IsOpen v x
  pub jobs :
      (c : Configuration) (q : JobsQuery) (v : V) (x : Text)
      → IsOpen (api.list_jobs c q v).1 x
      → IsOpen v x
  pub look :
      (c : Configuration) (id : Text) (version : Option Text) (v : V) (x : Text)
      → IsOpen (api.get_session c id version v).1 x
      → IsOpen v x
  pub create :
      (c : Configuration) (q : CreateSession) (v : V)
      → Post
          (λ response v'. (x : Text) → IsOpen v' x → IsOpen v x ⊎ (response.id ≡ x))
          (λ e v'. refuses e ≡ true → (x : Text) → IsOpen v' x → IsOpen v x)
          (api.create_session c q v)
  pub cancel :
      (c : Configuration) (id : Text) (v : V)
      → Post
          (λ u v'. (x : Text) → IsOpen v' x → IsOpen v x × (id ≢ x))
          (λ e v'. (x : Text) → IsOpen v' x → IsOpen v x)
          (api.delete_session_close c id v)
  pub close :
      (c : Configuration) (id : Text) (v : V)
      → Post
          (λ u v'. (x : Text) → IsOpen v' x → IsOpen v x × (id ≢ x))
          (λ e v'. (x : Text) → IsOpen v' x → IsOpen v x)
          (api.update_session c id false v)

abbrev put_token : Token → Service → Service
put_token t self = record self { token = t }

abbrev put_session : Option Text → Service → Service
put_session id self = record self { session_id = id }

module _ {V Value Params Document : Type 0} (api : Api V Value Params Document)
    (IsOpen : V → Text → Type 0) (ledger : Ledger api IsOpen) (Others : Text → Type 0)
    (self : Service) where
  -- The service as it was but for its token and its session, which is `id`.
  abbrev pub Holding : Option Text → Service → Type 0
  Holding id now = (t : Token) × (now ≡ record self { session_id = id; token = t })

  -- It holds the session `id`, and no session is open but the others and `id`.
  abbrev pub Held : Option Text → Service × V → Type 0
  Held id (now, v) = Holding id now × ((x : Text) → IsOpen v x → Others x ⊎ (id ≡ some x))

  called-Held :
      {A : Type 0} (kind : ResourceKind) (id : Option Text) (now : Service) (r : Result ApiError A)
      (v : V)
      → Held id (now, v)
      → Post (λ a. Held id) (λ e. Held id) (called api kind now (r, v))
  called-Held kind id now (ok a) v h = h
  called-Held kind id now (err e) v h = h

  pub call-Held :
      {A : Type 0} (kind : ResourceKind) (f : Service → Exec V ApiError A) (id : Option Text)
      (s : Service × V)
      → ((x : Text) → IsOpen (f s.0 s.1).1 x → IsOpen s.1 x)
      → Held id s
      → Post (λ a. Held id) (λ e. Held id) (call api kind f s)
  call-Held kind f id (now, v) quiet (holding, only) =
      let (r, v') = f now v in called-Held kind id now r v' (holding, λ x h. only x (quiet x h))

  fetched-open :
      (t : Token) (r : Result Text (Text × ℕ × ℕ)) (v : V) (x : Text)
      → IsOpen (fetched api t (r, v)).1.1 x
      → IsOpen v x
  fetched-open t (ok (bearer, expiration, lifetime)) v x h = h
  fetched-open t (err e) v x h = h

  checked-open :
      (key endpoint : Text) (t : Token) (now : ℕ) (v : V) (x : Text)
      → IsOpen (checked api key endpoint t (now, v)).1.1 x
      → IsOpen v x
  checked-open key endpoint t now v x h =
      let (r, v') = api.fetch_access_token key endpoint v in
      elim (Bool-cases (ltb t.expiration ((now + max 360 (t.lifetime / 10)) % 2 ^ 64))) [
        | inl e ↦ ledger.token key endpoint v x (fetched-open t r v' x (rw e at h))
        | inr e ↦ rw e at h
      ]

  pub renew-Held :
      (id : Option Text) (s : Service × V)
      → Held id s
      → Post (λ u. Held id) (λ e. Held id) (renew api s)
  unfolding renew check_token
  renew-Held id (now, v) ((t, e), only) =
      let (n, v') = api.current_unix_timestamp v in
      let (r, (t', v'')) = check_token api now.api_key now.iam_endpoint (now.token, v) in
      (
        (t', ap (put_token t') e),
        λ x h.
            only x
              (ledger.clock v x (checked-open now.api_key now.iam_endpoint now.token n v' x h)),
      )

  -- The held session has just been ended.
  abbrev Left : Text → Service × V → Type 0
  Left id (now, v) = Holding (some id) now × ((x : Text) → IsOpen v x → Others x)

  ended-Left :
      (kind : ResourceKind) (id : Text) (now : Service) (v : V) (r : Result ApiError (Unit {0}))
      (v' : V)
      → Held (some id) (now, v)
      → Post
          (λ u w. (x : Text) → IsOpen w x → IsOpen v x × (id ≢ x))
          (λ e w. (x : Text) → IsOpen w x → IsOpen v x)
          (r, v')
      → Post (λ u. Left id) (λ e. Held (some id)) (called api kind now (r, v'))
  ended-Left kind id now v (ok u) v' (holding, only) h =
      (holding, λ x o. let (before, ne) = h x o in not_held x (only x before) ne)
    where
      not_held : (x : Text) → Others x ⊎ (some id ≡ some x) → id ≢ x → Others x
      not_held x (inl o) ne = o
      not_held x (inr e) ne = absurd (ne cc)
  ended-Left kind id now v (err e) v' (holding, only) h = (holding, λ x o. only x (h x o))

  end_session-Left :
      (id : Text) (cancel : Bool) (s : Service × V)
      → Held (some id) s
      → Post (λ u. Left id) (λ e. Held (some id)) (end_session api id cancel s)
  end_session-Left id true (now, v) h =
      let (r, v') = api.delete_session_close (configuration now) id v in
      ended-Left session id now v r v' h (ledger.cancel (configuration now) id v)
  end_session-Left id false (now, v) h =
      let (r, v') = api.update_session (configuration now) id false v in
      ended-Left session id now v r v' h (ledger.close (configuration now) id v)

  pub set_session-Held :
      (id : Option Text) (old : Option Text) (now : Service)
      → Holding old now
      → Holding id (record now { session_id = id })
  set_session-Held id old now (t, e) = (t, ap (put_session id) e)

  pub release-Held :
      (id : Text) (s : Service × V)
      → Held (some id) s
      → Post (λ u. Held none) (λ e. Held (some id)) (release api id s)
  unfolding release
  release-Held id s h =
      continue-Post (λ u. Held (some id)) (λ u. Held none) (λ e. Held (some id)) (renew api s) _
        (renew-Held (some id) s h)
        (λ u s1 h1.
          continue-Post (λ jobs. Held (some id)) (λ u. Held none) (λ e. Held (some id))
            (call api session (λ now. api.list_jobs (configuration now) (pending_of id)) s1) _
            (call-Held session (λ now. api.list_jobs (configuration now) (pending_of id)) (some id)
              s1 (λ x. ledger.jobs (configuration s1.0) (pending_of id) s1.1 x) h1)
            (λ jobs s2 h2.
              continue-Post (λ u. Left id) (λ u. Held none) (λ e. Held (some id))
                (end_session api id (any_pending jobs) s2) (λ u. modify (set_session api none))
                (end_session-Left id (any_pending jobs) s2 h2)
                (λ u s3 (holding, only).
                  (set_session-Held none (some id) s3.0 holding, λ x o. inl (only x o)))))
