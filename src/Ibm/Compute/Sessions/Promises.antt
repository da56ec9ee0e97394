-- ===== src/Ibm/Compute/Sessions/Promises.antt =====
-- What a caller of `acquire` and `release` can rely on.
use qrmi.Prelude.{◌≡◌, ◌⊎◌, refl, ap, Option, none, some, inl, inr, ◌∙◌, sym, false}
use qrmi.Text.{Text}
use qrmi.Result.{Result, ok, err}
use qrmi.Exec.{Post}
use qrmi.Errors.{QrmiError}
use qrmi.Ibm.Api.{Api}
use qrmi.Ibm.Compute.State.{Service}
use qrmi.Ibm.Compute.Sessions.{acquire, release}
use qrmi.Ibm.Compute.Sessions.Outcome.{Ledger, Held, release-Held}
use qrmi.Ibm.Compute.Sessions.Acquisition.{Failed, Unanswered, acquire-Held}

abbrev put_session : Option Text → Service → Service
put_session id self = record self { session_id = id }

abbrev session_of : Service → Option Text
session_of self = self.session_id

-- The service but for its session and its token.
abbrev pub fixed_part : Service → Service
fixed_part self = record self {
  session_id = none;
  token = record { bearer = none; expiration = 0; lifetime = 0 };
}

-- After an attempt to acquire: the session returned is the one held; an error leaves the one that
-- was held, or none.
abbrev pub Acquired : Service → Result QrmiError Text → Service → Type 0
Acquired self (ok id) now = (now.session_id ≡ some id) × (fixed_part now ≡ fixed_part self)
Acquired self (err e) now =
    ((now.session_id ≡ self.session_id) ⊎ (now.session_id ≡ none))
    × (fixed_part now ≡ fixed_part self)

-- After an attempt to release the session held: none, or on an error the same.
abbrev pub Released : Service → Result QrmiError (Unit {0}) → Service → Type 0
Released self (ok u) now = (now.session_id ≡ none) × (fixed_part now ≡ fixed_part self)
Released self (err e) now = (now.session_id ≡ self.session_id) × (fixed_part now ≡ fixed_part self)

always-Post :
    {S E A : Type 0} (P : A → S → Type 0) (Q : E → S → Type 0)
    → ((a : A) (s : S) → P a s)
    → ((e : E) (s : S) → Q e s)
    → (o : Result E A × S) → Post P Q o
always-Post P Q p q (ok a, s) = p a s
always-Post P Q p q (err e, s) = q e s

module _ {V Value Params Document : Type 0} (api : Api V Value Params Document) where
  -- Of no session is anything said.
  abbrev Never : V → Text → Type 0
  Never v x = ⊥

  no_ledger : Ledger api Never
  no_ledger = record {
    clock = λ v x h. h;
    token = λ key endpoint v x h. h;
    jobs = λ c q v x h. h;
    look = λ c id version v x h. h;
    create =
        λ c q v. always-Post _ _ (λ r w x h. inl h) (λ e w n x h. h) (api.create_session c q v);
    cancel = λ c id v.
        always-Post _ _ (λ u w x h. absurd h) (λ e w x h. h) (api.delete_session_close c id v);
    close = λ c id v.
        always-Post _ _ (λ u w x h. absurd h) (λ e w x h. h) (api.update_session c id false v);
  }

  module _ (self : Service) where
    Acquired-Post :
        (r : Result QrmiError Text) (s : Service × V)
        → Post
            (λ new. Held api Never no_ledger (λ x. ⊥) self (some new))
            (Failed api Never no_ledger (λ x. ⊥) self self.session_id)
            (r, s)
        → Acquired self r s.0
    Acquired-Post (ok id) s ((t, e), only) = (ap session_of e, ap fixed_part e)
    Acquired-Post (err x) s (inl ((t, e), only)) = (inl (ap session_of e), ap fixed_part e)
    Acquired-Post (err x) s (inr (inr u)) =
        let (t, e) = u.holding in (inr (ap session_of e), ap fixed_part e)
    Acquired-Post (err x) s (inr (inl ((t, e), only))) = (inr (ap session_of e), ap fixed_part e)

    -- After `acquire` the session that it has returned is the one that the service holds; after an
    -- error the service holds the session that it held before, or none. Nothing else of the service
    -- has changed but its token.
    pub acquire-Acquired :
        (v : V) → let after = acquire api (self, v) in Acquired self after.0 after.1.0
    acquire-Acquired v =
        let (r, s) = acquire api (self, v) in
        Acquired-Post r s (
          acquire-Held api Never no_ledger (λ x. ⊥) self self.session_id (self, v)
            ((self.token, refl), λ x h. absurd h))

    Released-Post :
        (id : Text) (r : Result QrmiError (Unit {0})) (s : Service × V)
        → self.session_id ≡ some id
        → Post
            (λ u. Held api Never no_ledger (λ x. ⊥) self none)
            (λ e. Held api Never no_ledger (λ x. ⊥) self (some id))
            (r, s)
        → Released self r s.0
    Released-Post id (ok u) s i ((t, e), only) = (ap session_of e, ap fixed_part e)
    Released-Post id (err x) s i ((t, e), only) = (ap session_of e ∙ sym i, ap fixed_part e)

    -- After a successful `release` of the session that it holds the service holds none; after an
    -- error it holds the same. Nothing else of it has changed but its token.
    pub release-Released :
        (id : Text) (v : V)
        → self.session_id ≡ some id
        → let after = release api id (self, v) in Released self after.0 after.1.0
    release-Released id v i =
        let (r, s) = release api id (self, v) in
        Released-Post id r s i (
          release-Held api Never no_ledger (λ x. ⊥) self id (self, v)
            ((self.token, ap (λ o. put_session o self) i), λ x h. absurd h))

  module _ (IsOpen : V → Text → Type 0) (ledger : Ledger api IsOpen) (Others : Text → Type 0)
      (self : Service) where
    other_or_same :
        (id : Option Text) (s : Service × V) (x : Text)
        → Held api IsOpen ledger Others self id s
        → IsOpen s.1 x
        → Others x ⊎ (s.0.session_id ≡ some x)
    other_or_same id s x ((t, e), only) o = rw (ap session_of e) (only x o)

    -- A session open to others, the one that the service holds, or one of a request whose answer does
    -- not say whether it was opened.
    abbrev pub Accounted : Text → Service × V → Type 0
    Accounted x s =
        Others x ⊎ (s.0.session_id ≡ some x) ⊎ Unanswered api IsOpen ledger Others self s

    accounted : (x : Text) (s : Service × V) → Others x ⊎ (s.0.session_id ≡ some x) → Accounted x s
    accounted x s (inl h) = inl h
    accounted x s (inr h) = inr (inl h)

    Acquired-open :
        (r : Result QrmiError Text) (s : Service × V) (x : Text)
        → Post
            (λ new. Held api IsOpen ledger Others self (some new))
            (Failed api IsOpen ledger Others self self.session_id)
            (r, s)
        → IsOpen s.1 x
        → Accounted x s
    Acquired-open (ok id) s x h o = accounted x s (other_or_same (some id) s x h o)
    Acquired-open (err e) s x (inl h) o = accounted x s (other_or_same self.session_id s x h o)
    Acquired-open (err e) s x (inr (inl h)) o = accounted x s (other_or_same none s x h o)
    Acquired-open (err e) s x (inr (inr u)) o = inr (inr u)

    -- If the sessions that are open are others and the one that the service holds, then they are so
    -- after `acquire`, however it ends, unless its last request was for a new session and the answer
    -- was no refusal: it was lost, could not be read, or was an error of the server. The service opens a
    -- session only when it is asked for one and does not refuse, and ends one that is cancelled or
    -- closed.
    pub acquire_no_leak :
        (v : V) (x : Text)
        → ((y : Text) → IsOpen v y → Others y ⊎ (self.session_id ≡ some y))
        → IsOpen (acquire api (self, v)).1.1 x
        → Accounted x (acquire api (self, v)).1
    acquire_no_leak v x only o =
        let (r, s) = acquire api (self, v) in
        Acquired-open r s x
          (acquire-Held api IsOpen ledger Others self self.session_id (self, v)
            ((self.token, refl), only))
          o
