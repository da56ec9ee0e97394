-- ===== src/Pasqal/Client.antt =====
-- The client of the Pasqal Cloud API (dependencies/pasqal_cloud_client): its fields, what it takes
-- from the libraries, and the tokens that it sends.
pub mod Auth
pub mod Requests
pub mod Header
use qrmi.Prelude.{
  ℕ, ◌+◌, Bool, true, false, ◌&&◌, Option, none, some, List, [], ◌∷◌, ◌++◌, is_empty, leb, ltb,
  if◌then◌else◌,
}
use qrmi.Prelude.Int.{ℤ, pos, ltb_ℤ}
use qrmi.Text.{Text, codes, trim, split, contains, parse_i64}
use qrmi.Result.{Result, ok, err, ◌>>=◌, map_err}
use qrmi.Exec.{Exec}
use qrmi.Errors.{Message, text, plain, status_line}

pub data Method : Type 0 where
  get post patch : Method

-- What a request carries: `models::Batch`, with its one job, and the object of a CUDA-Q job.
pub data Body (Value : Type 0) : Type 0 where
  no_body : Body Value
  -- sequence_builder, runs, device_type, project_id
  batch : Text → ℤ → Text → Text → Body Value
  -- machine, shots, project_id, sequence
  cudaq : Text → ℤ → Text → Value → Body Value

pub record Request (Value : Type 0) : Type 0 where
  pub method : Method
  pub url : Text
  pub authorization : Option Text
  pub body : Body Value

-- The libraries: the clock, `reqwest`, `base64` with `serde_json`, on a world `V` that holds the
-- services. An error is its message.
pub record Libraries (V Value : Type 0) : Type 0 where
  -- `str::to_uppercase`
  pub to_uppercase : Text → Text
  -- the seconds since 1970, in the range of `i64`
  pub now_unix_seconds : V → Result Text ℕ × V
  -- the number of the status and the body
  pub send : Request Value → Exec V Text (ℕ × Text)
  pub post_form : Text → List (Text × Text) → Exec V Text (ℕ × Text)
  pub header_value : Text → Result Text Text
  -- the payload of a token, decoded and parsed
  pub decode_payload : Text → Result Text Value
  -- `Value::get` at `exp`, `as_i64` and `as_str`
  pub exp_member : Value → Option Value
  pub as_i64 : Value → Option ℤ
  pub as_str : Value → Option Text
  -- the field `access_token` of a response
  pub access_token : Text → Result Text Text

pub record Client : Type 0 where
  pub base_url : Text
  pub project_id : Text
  pub auth_token : Text
  pub auth_header : Option Text
  pub auth_endpoint : Text
  pub username : Option Text
  pub password : Option Text
  pub client_id : Option Text
  pub client_secret : Option Text

abbrev pub is_success : ℕ → Bool
is_success status = leb 200 status && ltb status 300

abbrev pub message : Text → Message
message e = text e ∷ []

pub data AccessTokenRequest : Type 0 where
  username_password : Text → Text → AccessTokenRequest
  service_account : Text → Text → AccessTokenRequest

unfoldable pub form_params : AccessTokenRequest → List (Text × Text)
form_params (username_password username password) =
    (codes "grant_type", codes "http://auth0.com/oauth/grant-type/password-realm")
    ∷ (codes "realm", codes "pcs-users")
    ∷ (codes "client_id", codes "PeZvo7Atx7IVv3iel59asJSb4Ig7vuSB")
    ∷ (codes "audience", codes "https://apis.pasqal.cloud/account/api/v1")
    ∷ (codes "username", username)
    ∷ (codes "password", password)
    ∷ []
form_params (service_account client_id client_secret) =
    (codes "grant_type", codes "client_credentials")
    ∷ (codes "client_id", client_id)
    ∷ (codes "client_secret", client_secret)
    ∷ (codes "audience", codes "https://apis.pasqal.cloud/account/api/v1")
    ∷ []

unfoldable pub normalize_auth_endpoint : Text → Result Message Text
unfolding trim contains
normalize_auth_endpoint auth_endpoint =
    if is_empty (trim auth_endpoint)
    then err (plain "auth endpoint must be configured when requesting an access token")
    else if contains (codes "://") auth_endpoint
    then ok (trim auth_endpoint)
    else ok (codes "https://" ++ trim auth_endpoint)

-- The pair of credentials that a request uses; the user's come first.
abbrev pub service_pair : Option Text → Option Text → Option AccessTokenRequest
service_pair (some client_id) (some client_secret) = some (service_account client_id client_secret)
service_pair (some client_id) none = none
service_pair none _ = none

abbrev pub pair_of :
    Option Text → Option Text → Option AccessTokenRequest → Option AccessTokenRequest
pair_of (some username) (some password) other = some (username_password username password)
pair_of (some username) none other = other
pair_of none _ other = other

abbrev pub refresh_request : Client → Option AccessTokenRequest
refresh_request self =
    pair_of self.username self.password (service_pair self.client_id self.client_secret)

module _ {V Value : Type 0} (lib : Libraries V Value) where
  unfoldable pub make_auth_header : Text → Result Message (Option Text)
  unfolding trim
  make_auth_header token =
      if is_empty (trim token)
      then ok none
      else (do h ← map_err message (lib.header_value (codes "Bearer " ++ token)); ok (some h))

  abbrev pub read_text : Option Text → Result Message (Option ℤ)
  read_text none = ok none
  read_text (some s) = elim (parse_i64 s) [
    | none ↦ err (plain "invalid digit found in string")
    | some n ↦ ok (some n)
  ]

  abbrev pub read_number : Value → Option ℤ → Result Message (Option ℤ)
  read_number exp (some n) = ok (some n)
  read_number exp none = read_text (lib.as_str exp)

  abbrev pub read_exp : Option Value → Result Message (Option ℤ)
  read_exp none = ok none
  read_exp (some exp) = read_number exp (lib.as_i64 exp)

  -- The first parts of a token between dots.
  abbrev pub expiry_of_parts : List Text → Result Message (Option ℤ)
  expiry_of_parts (header ∷ payload ∷ signature ∷ rest) =
      if is_empty header
      then ok none
      else if is_empty payload
      then ok none
      else (do v ← map_err message (lib.decode_payload payload); read_exp (lib.exp_member v))
  expiry_of_parts _ = ok none

  unfoldable pub jwt_expiry_unix_seconds : Text → Result Message (Option ℤ)
  unfolding trim split parse_i64
  jwt_expiry_unix_seconds token =
      if is_empty (trim token) then ok none else expiry_of_parts (split (codes ".") (trim token))

  abbrev pub usable_until : ℕ → Result Message (Option ℤ) → Bool
  usable_until now (ok (some exp)) = ltb_ℤ (pos (now + 10)) exp
  usable_until now (ok none) = true
  usable_until now (err e) = false

  unfoldable pub is_auth_token_usable : Text → ℕ → Bool
  is_auth_token_usable token now =
      if is_empty (trim token) then false else usable_until now (jwt_expiry_unix_seconds token)

  abbrev pub token_of : Result Text (ℕ × Text) × V → Result Message Text × V
  token_of (err e, v) = (err (message e), v)
  token_of (ok (status, body), v) =
      if is_success status then (map_err message (lib.access_token body), v) else (
        err (
            text (codes "Token request failed: ")
            ∷ status_line status
            ∷ text (codes " ")
            ∷ text body
            ∷ []),
        v,
      )

  abbrev pub posted : AccessTokenRequest → Result Message Text → V → Result Message Text × V
  posted request (err e) v = (err e, v)
  posted request (ok endpoint) v = token_of (lib.post_form endpoint (form_params request) v)

  unfoldable pub request_access_token : Text → AccessTokenRequest → Exec V Message Text
  unfolding form_params normalize_auth_endpoint
  request_access_token auth_endpoint request v =
      posted request (normalize_auth_endpoint auth_endpoint) v

  abbrev pub with_header :
      Client → V → Result Message (Option Text) → Result Message (Unit {0}) × (Client × V)
  with_header self v (ok header) = (ok tt, (record self { auth_header = header }, v))
  with_header self v (err e) = (err e, (self, v))

  -- The new token is stored before its header is made.
  abbrev pub store : Client → Result Message Text × V → Result Message (Unit {0}) × (Client × V)
  store self (err e, v) = (err e, (self, v))
  store self (ok token, v) =
      with_header (record self { auth_token = token }) v (make_auth_header token)

  abbrev pub request_new :
      Client → V → Option AccessTokenRequest → Result Message (Unit {0}) × (Client × V)
  request_new self v none = (
    err (plain "auth token is missing or expired and refresh credentials are not configured"),
    (self, v),
  )
  request_new self v (some request) = store self (request_access_token self.auth_endpoint request v)

  -- `if let Some(exp) = Self::jwt_expiry_unix_seconds(..)?`: the expiry is only logged, but an error
  -- of the reading ends the call.
  abbrev pub refresh :
      Client → V → Result Message (Option ℤ) → Result Message (Unit {0}) × (Client × V)
  refresh self v (err e) = (err e, (self, v))
  refresh self v (ok exp) = request_new self v (refresh_request self)

  abbrev pub ensured : Client → Result Text ℕ × V → Result Message (Unit {0}) × (Client × V)
  ensured self (err e, v) = (err (message e), (self, v))
  ensured self (ok now, v) =
      if is_auth_token_usable self.auth_token now
      then (ok tt, (self, v))
      else refresh self v (jwt_expiry_unix_seconds self.auth_token)

  unfoldable pub ensure_authenticated : Exec (Client × V) Message (Unit {0})
  unfolding is_auth_token_usable jwt_expiry_unix_seconds request_access_token make_auth_header
  ensure_authenticated (self, v) = ensured self (lib.now_unix_seconds v)
