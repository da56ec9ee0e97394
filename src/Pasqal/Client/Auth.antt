-- ===== src/Pasqal/Client/Auth.antt =====
-- When the client asks for a token, and what it then holds
-- (dependencies/pasqal_cloud_client/src/auth/auth.rs).
use qrmi.Prelude.{
  ℕ, ◌+◌, ◌≡◌, ◌⊎◌, refl, inl, inr, true, false, Option, none, some, Bool-cases, is_empty,
  if◌then◌else◌,
}
use qrmi.Prelude.Int.{ℤ, pos, ltb_ℤ}
use qrmi.Text.{Text, trim}
use qrmi.Result.{Result, ok, err, Result-cases}
use qrmi.Errors.{Message, plain}
use qrmi.Pasqal.Client.{
  Libraries, Client, refresh_request, make_auth_header, jwt_expiry_unix_seconds,
  is_auth_token_usable, request_access_token, ensure_authenticated, refresh, store, request_new,
  username_password, service_account, service_pair, pair_of, usable_until, AccessTokenRequest,
}

-- Not both texts are there.
abbrev pub Lacking : Option Text → Option Text → Type 0
Lacking a b = (a ≡ none) ⊎ (b ≡ none)

-- The credentials that a client asks with: the pair of the user if it is there, else the pair of the
-- service account if that is there.
pub data Asking (self : Client) : Option AccessTokenRequest → Type 0 where
  user :
      {username password : Text}
      → self.username ≡ some username
      → self.password ≡ some password
      → Asking self (some (username_password username password))
  account :
      {client_id client_secret : Text}
      → Lacking self.username self.password
      → self.client_id ≡ some client_id
      → self.client_secret ≡ some client_secret
      → Asking self (some (service_account client_id client_secret))
  nobody :
      Lacking self.username self.password
      → Lacking self.client_id self.client_secret
      → Asking self none

account-Asking :
    (self : Client)
    → Lacking self.username self.password
    → (i s : Option Text) → self.client_id ≡ i
    → self.client_secret ≡ s
    → Asking self (service_pair i s)
account-Asking self l (some i) (some s) e f = account l e f
account-Asking self l (some i) none e f = nobody l (inr f)
account-Asking self l none s e f = nobody l (inl e)

refresh_request-Asking :
    (self : Client) (u p : Option Text)
    → self.username ≡ u
    → self.password ≡ p
    → Asking self (pair_of u p (service_pair self.client_id self.client_secret))
refresh_request-Asking self (some u) (some p) e f = user e f
refresh_request-Asking self (some u) none e f =
    account-Asking self (inr f) self.client_id self.client_secret refl refl
refresh_request-Asking self none p e f =
    account-Asking self (inl e) self.client_id self.client_secret refl refl

-- An expiry that is more than ten seconds away, none counting as such, and one that is not.
abbrev pub Lasts : ℕ → Option ℤ → Type 0
Lasts now none = Unit
Lasts now (some exp) = ltb_ℤ (pos (now + 10)) exp ≡ true

abbrev pub Passed : ℕ → Option ℤ → Type 0
Passed now none = ⊥
Passed now (some exp) = ltb_ℤ (pos (now + 10)) exp ≡ false

module _ {V Value : Type 0} (lib : Libraries V Value) (self : Client) where
  -- The token held can be read and has had its time, or is blank.
  abbrev pub Spent : ℕ → Option ℤ → Type 0
  Spent now exp =
      (jwt_expiry_unix_seconds lib self.auth_token ≡ ok exp)
      × ((is_empty (trim self.auth_token) ≡ true) ⊎ Passed now exp)

  -- What `ensure_authenticated` comes to, once the clock has shown `now`, in the world `v`.
  pub data Ensured (now : ℕ) (v : V) : Result Message (Unit {0}) × (Client × V) → Type 0 where
    -- the token is not blank and lasts: no request
    kept :
        (exp : Option ℤ)
        → is_empty (trim self.auth_token) ≡ false
        → jwt_expiry_unix_seconds lib self.auth_token ≡ ok exp
        → Lasts now exp
        → Ensured now v (ok tt, (self, v))
    -- one request
    renewed :
        {token : Text} {header : Option Text} {v' : V} (exp : Option ℤ)
        (request : AccessTokenRequest)
        → Spent now exp
        → Asking self (some request)
        → request_access_token lib self.auth_endpoint request v ≡ (ok token, v')
        → make_auth_header lib token ≡ ok header
        → Ensured now v (ok tt, (record self { auth_token = token; auth_header = header }, v'))
    -- the token came, but no header can hold it
    unusable :
        {token : Text} {e : Message} {v' : V} (exp : Option ℤ) (request : AccessTokenRequest)
        → Spent now exp
        → Asking self (some request)
        → request_access_token lib self.auth_endpoint request v ≡ (ok token, v')
        → make_auth_header lib token ≡ err e
        → Ensured now v (err e, (record self { auth_token = token }, v'))
    refused :
        {e : Message} {v' : V} (exp : Option ℤ) (request : AccessTokenRequest)
        → Spent now exp
        → Asking self (some request)
        → request_access_token lib self.auth_endpoint request v ≡ (err e, v')
        → Ensured now v (err e, (self, v'))
    -- no credentials: no request
    no_credentials :
        (exp : Option ℤ)
        → Spent now exp
        → Asking self none
        → Ensured now v (
          err (plain "auth token is missing or expired and refresh credentials are not configured"),
          (self, v),
        )
    -- the token cannot be read: no request either, whatever the credentials
    unreadable :
        {e : Message}
        → jwt_expiry_unix_seconds lib self.auth_token ≡ err e
        → Ensured now v (err e, (self, v))

  module _ (now : ℕ) (v : V) where
    requested-Ensured :
        (exp : Option ℤ) (request : AccessTokenRequest)
        → Spent now exp
        → Asking self (some request)
        → Ensured now v (store lib self (request_access_token lib self.auth_endpoint request v))
    requested-Ensured exp request spent r =
        outcome (request_access_token lib self.auth_endpoint request v) refl
      where
        outcome :
            (o : Result Message Text × V)
            → request_access_token lib self.auth_endpoint request v ≡ o
            → Ensured now v (store lib self o)
        outcome (err e, v') h = refused exp request spent r h
        outcome (ok token, v') h = elim (Result-cases (make_auth_header lib token)) [
          | inl (header, m) ↦ rw m (renewed exp request spent r h m)
          | inr (e, m) ↦ rw m (unusable exp request spent r h m)
        ]

    asked-Ensured :
        (exp : Option ℤ) (request : Option AccessTokenRequest)
        → Spent now exp
        → Asking self request
        → Ensured now v (request_new lib self v request)
    asked-Ensured exp none spent r = no_credentials exp spent r
    asked-Ensured exp (some request) spent r = requested-Ensured exp request spent r

    spent-Ensured :
        (exp : Option ℤ)
        → Spent now exp
        → Ensured now v (refresh lib self v (jwt_expiry_unix_seconds lib self.auth_token))
    spent-Ensured exp spent = rw spent.0 (
        asked-Ensured exp (refresh_request self) spent
          (refresh_request-Asking self self.username self.password refl refl))

    -- What the test of the token says, for one that is not blank.
    read-Ensured :
        (r : Result Message (Option ℤ))
        → is_empty (trim self.auth_token) ≡ false
        → jwt_expiry_unix_seconds lib self.auth_token ≡ r
        → Ensured now v (
            if usable_until lib now r
            then (ok tt, (self, v))
            else refresh lib self v (jwt_expiry_unix_seconds lib self.auth_token))
    read-Ensured (err e) full h = rw h (unreadable h)
    read-Ensured (ok none) full h = kept none full h tt
    read-Ensured (ok (some exp)) full h = elim (Bool-cases (ltb_ℤ (pos (now + 10)) exp)) [
      | inl l ↦ rw l (kept (some exp) full h l)
      | inr l ↦ rw l (spent-Ensured (some exp) (h, inr l))
    ]

    blank-Spent : is_empty (trim self.auth_token) ≡ true → Spent now none
    unfolding jwt_expiry_unix_seconds
    blank-Spent blank = (rw blank, inl blank)

    tested-Ensured : Ensured now v (
        if is_auth_token_usable lib self.auth_token now
        then (ok tt, (self, v))
        else refresh lib self v (jwt_expiry_unix_seconds lib self.auth_token))
    unfolding is_auth_token_usable
    tested-Ensured = elim (Bool-cases (is_empty (trim self.auth_token))) [
      | inl e ↦ rw e (spent-Ensured none (blank-Spent e))
      | inr e ↦ rw e (read-Ensured (jwt_expiry_unix_seconds lib self.auth_token) e refl)
    ]

  -- If the clock can be read, `ensure_authenticated` keeps a token that is not blank and lasts for more
  -- than ten seconds, or has no expiry, and sends nothing. If the token is blank or has passed that
  -- time, it asks once for a token, with the user's credentials if both are there and else with the
  -- service account's, and then holds the new token with its header, on an error the old one unless
  -- the new one fits in no header; it asks for none without credentials. A token that cannot be read
  -- ends the call with that error, and none is asked for.
  pub ensure_authenticated-Ensured :
      (now : ℕ) (v v' : V)
      → lib.now_unix_seconds v ≡ (ok now, v')
      → Ensured now v' (ensure_authenticated lib (self, v))
  unfolding ensure_authenticated
  ensure_authenticated-Ensured now v v' clock = rw clock (tested-Ensured now v')
