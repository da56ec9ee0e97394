-- ===== src/Ibm/Compute/Sessions/Acquisition.antt =====
-- `acquire` (src/ibm/quantum_compute_service.rs) step by step: the session that is kept, or released
-- and replaced.
use qrmi.Prelude.{refl, true, false, ◌≡◌, ◌⊎◌, ap, Option, none, some, Bool-cases, inl, inr}
use qrmi.Text.{Text}
use qrmi.Result.{Result, ok, err}
use qrmi.Exec.{◌>>◌, Post, continue-Post, weaken-Post, return, modify, continue}
use qrmi.Errors.{QrmiError}
use qrmi.Ibm.Api.{Api, ApiError, Session, session, Configuration, CreateSession}
use qrmi.Ibm.Compute.State.{Service, configuration, renew, call, called}
use qrmi.Ibm.Compute.Sessions.{
  still_active, mode_of, set_session, release, kept, reuse, requested, open_session, opened,
  acquire,
}
use qrmi.Ibm.Compute.Sessions.Outcome.{Ledger, refuses}
use qrmi.Ibm.Compute.Sessions.Outcome

module _ {V Value Params Document : Type 0} (api : Api V Value Params Document)
    (IsOpen : V → Text → Type 0) (ledger : Ledger api IsOpen) (Others : Text → Type 0)
    (self : Service) where
  abbrev Holding : Option Text → Service → Type 0
  Holding = Outcome.Holding api IsOpen ledger Others self

  abbrev pub Held : Option Text → Service × V → Type 0
  Held = Outcome.Held api IsOpen ledger Others self

  -- The session held is the one that the last step has named, if any.
  abbrev Named : Option Text → Service × V → Type 0
  Named id s = Held id s

  kept-Held :
      (id : Text) (response : Session) (s : Service × V)
      → Held (some id) s
      → Post Named (λ e. Held (some id)) (kept api id response s)
  kept-Held id response s h = elim (Bool-cases (still_active response)) [
    | inl e ↦ rw e h
    | inr e ↦ rw e (
        continue-Post (λ u. Held none) Named (λ e. Held (some id)) (release api id s)
          (λ u. return none) (Outcome.release-Held api IsOpen ledger Others self id s h)
          (λ u s' h'. h'))
  ]

  reuse-Held :
      (id : Option Text) (s : Service × V) → Held id s → Post Named (λ e. Held id) (reuse api id s)
  reuse-Held none s h = h
  reuse-Held (some id) s h =
      continue-Post (λ response. Held (some id)) Named (λ e. Held (some id))
        (call api session (λ now. api.get_session (configuration now) id none) s) (kept api id)
        (Outcome.call-Held api IsOpen ledger Others self session
          (λ now. api.get_session (configuration now) id none) (some id) s
          (λ x. ledger.look (configuration s.0) id none s.1 x) h)
        (λ response s' h'. kept-Held id response s' h')

  -- A session has been created and is not yet noted.
  abbrev Created : Session → Service × V → Type 0
  Created response (now, v) =
      Holding none now × ((x : Text) → IsOpen v x → Others x ⊎ (some response.id ≡ some x))

  -- The last request was for a session, and its answer does not say that none was opened.
  pub record Unanswered (s : Service × V) : Type 0 where
    pub holding : Holding none s.0
    pub configuration : Configuration
    pub session : CreateSession
    pub before : V
    pub error : ApiError
    pub asked : api.create_session configuration session before ≡ (err error, s.1)
    pub unclear : refuses error ≡ false

  -- No session is held, and none leaked but perhaps by an answer that was lost.
  abbrev pub Empty : Service × V → Type 0
  Empty s = Held none s ⊎ Unanswered s

  called-Created :
      (c : Configuration) (q : CreateSession) (now : Service) (v : V) (r : Result ApiError Session)
      (v' : V)
      → api.create_session c q v ≡ (r, v')
      → Held none (now, v)
      → Post
          (λ response w. (x : Text) → IsOpen w x → IsOpen v x ⊎ (response.id ≡ x))
          (λ e w. refuses e ≡ true → (x : Text) → IsOpen w x → IsOpen v x)
          (r, v')
      → Post Created (λ e. Empty) (called api session now (r, v'))
  called-Created c q now v (ok response) v' asked (holding, only) h =
      (holding, λ x o. noted x (h x o))
    where
      old : (x : Text) → Others x ⊎ (none ≡ some x) → Others x ⊎ (some response.id ≡ some x)
      old x (inl o) = inl o
      old x (inr e) = cc

      noted : (x : Text) → IsOpen v x ⊎ (response.id ≡ x) → Others x ⊎ (some response.id ≡ some x)
      noted x (inl o) = old x (only x o)
      noted x (inr e) = inr (ap some e)
  called-Created c q now v (err e) v' asked (holding, only) h = elim (Bool-cases (refuses e)) [
    | inl r ↦ inl (holding, λ x o. only x (h r x o))
    | inr r ↦ inr (record {
      holding = holding;
      configuration = c;
      session = q;
      before = v;
      error = e;
      asked = asked;
      unclear = r;
    })
  ]

  open_session-Held :
      (s : Service × V)
      → Held none s
      → Post (λ new. Held (some new)) (λ e. Empty) (open_session api s)
  unfolding open_session
  open_session-Held (now, v) h =
      continue-Post (λ mode. Held none) (λ new. Held (some new)) (λ e. Empty)
        (mode_of now.session_mode, (now, v)) _ (lifted (mode_of now.session_mode) (now, v) h)
        (λ mode (now', v') h'.
          let create = api.create_session (configuration now') (requested api now' mode) in
          let (r, w) = create v' in
          continue-Post Created (λ new. Held (some new)) (λ e. Empty)
            (called api session now' (r, w))
            (λ response. modify (set_session api (some response.id)) >> return response.id)
            (called-Created (configuration now') (requested api now' mode) now' v' r w refl h'
              (ledger.create (configuration now') (requested api now' mode) v'))
            (λ response s'' (holding, only). (
              Outcome.set_session-Held api IsOpen ledger Others self (some response.id) none s''.0
                  holding,
              only,
            )))
    where
      lifted :
          {A : Type 0} (r : Result QrmiError A) (s : Service × V)
          → Held none s
          → Post (λ a. Held none) (λ e. Empty) (r, s)
      lifted (ok a) s h = h
      lifted (err e) s h = inl h

  -- What may be held after a failed `acquire`: what was, or nothing.
  abbrev pub Failed : Option Text → QrmiError → Service × V → Type 0
  Failed id e s = Held id s ⊎ Empty s

  settled-Failed :
      (id known : Option Text) (s : Service × V)
      → id ≡ known
      → Post Named (λ e. Held known) (reuse api known s)
      → Post Named (Failed id) (reuse api known s)
  settled-Failed id known s i h =
      weaken-Post Named Named (λ e. Held known) (Failed id) (reuse api known s) (λ o s' h'. h')
        (λ e s' h'. inl (rw i h')) h

  opened-Failed :
      (id o : Option Text) (s : Service × V)
      → Held o s
      → Post (λ new. Held (some new)) (Failed id) (opened api o s)
  opened-Failed id (some new) s h = h
  opened-Failed id none s h =
      weaken-Post (λ new. Held (some new)) (λ new. Held (some new)) (λ e. Empty) (Failed id)
        (open_session api s) (λ new s' h'. h') (λ e s' h'. inr h') (open_session-Held s h)

  held_id : (id : Option Text) (now : Service) → Holding id now → id ≡ now.session_id
  held_id id now (t, e) = cc (ap session_of e)
    where
      session_of : Service → Option Text
      session_of s = s.session_id

  pub acquire-Held :
      (id : Option Text) (s : Service × V)
      → Held id s
      → Post (λ new. Held (some new)) (Failed id) (acquire api s)
  unfolding acquire
  acquire-Held id s h =
      continue-Post (λ u. Held id) (λ new. Held (some new)) (Failed id) (renew api s)
        (λ u s'. continue (reuse api s'.0.session_id s') (opened api))
        (weaken-Post (λ u. Held id) (λ u. Held id) (λ e. Held id) (Failed id) (renew api s)
          (λ u s' h'. h') (λ e s' h'. inl h')
          (Outcome.renew-Held api IsOpen ledger Others self id s h))
        (λ u s1 h1.
          let i = held_id id s1.0 h1.0 in
          continue-Post Named (λ new. Held (some new)) (Failed id) (reuse api s1.0.session_id s1)
            (opened api)
            (settled-Failed id s1.0.session_id s1 i (reuse-Held s1.0.session_id s1 (rw i at h1)))
            (λ o s2 h2. opened-Failed id o s2 h2))
