-- ===== src/Pasqal/Client/Header.antt =====
-- The token and the header that a client holds (dependencies/pasqal_cloud_client).
use qrmi.Prelude.{ℕ, ◌≡◌, refl, inl, inr, Option, none, some, Bool-cases, arith}
use qrmi.Prelude.Int.{ℤ}
use qrmi.Text.{Text, starts_with, codes}
use qrmi.Result.{map_err, Result, ok, err, Result-cases}
use qrmi.Exec.{lift, lift-Post, Exec, Post, continue, continue-Post}
use qrmi.Errors.{Message}
use qrmi.Pasqal.Client.{
  message, AccessTokenRequest, no_body, Libraries, Client, Method, Body, make_auth_header,
  jwt_expiry_unix_seconds, is_auth_token_usable, request_access_token, refresh_request,
  ensure_authenticated, ensured, refresh, request_new, store, with_header, is_success,
}
use qrmi.Pasqal.Client.Requests.{
  specs_of, DeviceType, Models, handle_request, with_headers, send_to, authenticated,
  get_unauthenticated, get_device, get_batch_results, get_device_specs, device_name, first_device,
  one_result,
}

module _ {V Value : Type 0} (lib : Libraries V Value) where
  -- The header that the client sends is that of its token, if one can be made of the token.
  abbrev pub IsBearer : Client → Type 0
  IsBearer c = (h : Option Text) → make_auth_header lib c.auth_token ≡ ok h → c.auth_header ≡ h

  abbrev pub Always : {A : Type 0} → Result Message A × (Client × V) → Type 0
  Always = Post (λ a s. IsBearer s.0) (λ e s. IsBearer s.0)

  pub continue-Always :
      {A B : Type 0} (o : Result Message A × (Client × V)) (f : A → Exec (Client × V) Message B)
      → Always o
      → ((a : A) (s : Client × V) → IsBearer s.0 → Always (f a s))
      → Always (continue o f)
  continue-Always o f h k =
      continue-Post (λ a s. IsBearer s.0) (λ b s. IsBearer s.0) (λ e s. IsBearer s.0) o f h k

  with_header-Always :
      (self : Client) (v : V) (r : Result Message (Option Text))
      → make_auth_header lib self.auth_token ≡ r
      → Always (with_header lib self v r)
  with_header-Always self v (ok header) e = λ h e'. ground (arith, e, e')
  with_header-Always self v (err x) e = λ h e'. cc

  store-Always :
      (self : Client) (o : Result Message Text × V) → IsBearer self → Always (store lib self o)
  store-Always self (err e, v) b = b
  store-Always self (ok token, v) b =
      with_header-Always (record self { auth_token = token }) v (make_auth_header lib token) refl

  request_new-Always :
      (self : Client) (v : V) (o : Option AccessTokenRequest)
      → IsBearer self
      → Always (request_new lib self v o)
  request_new-Always self v none b = b
  request_new-Always self v (some request) b =
      store-Always self (request_access_token lib self.auth_endpoint request v) b

  refresh-Always :
      (self : Client) (v : V) (r : Result Message (Option ℤ))
      → IsBearer self
      → Always (refresh lib self v r)
  refresh-Always self v (err e) b = b
  refresh-Always self v (ok exp) b = request_new-Always self v (refresh_request self) b

  ensured-Always :
      (self : Client) (o : Result Text ℕ × V) → IsBearer self → Always (ensured lib self o)
  ensured-Always self (err e, v) b = b
  ensured-Always self (ok now, v) b =
      elim (Bool-cases (is_auth_token_usable lib self.auth_token now)) [
        | inl e ↦ rw e b
        | inr e ↦ rw e (refresh-Always self v (jwt_expiry_unix_seconds lib self.auth_token) b)
      ]

  ensure_authenticated-Always :
      (s : Client × V) → IsBearer s.0 → Always (ensure_authenticated lib s)
  unfolding ensure_authenticated
  ensure_authenticated-Always (self, v) b = ensured-Always self (lib.now_unix_seconds v) b

  module _ {Specs JobResult : Type 0} (models : Models Value Specs JobResult) where
    module _ {A : Type 0} (decode : Text → Result Text A) where
      handle_request-Always :
          (self : Client) (o : Result Text (ℕ × Text) × V)
          → IsBearer self
          → Always (handle_request lib models decode self o)
      handle_request-Always self (err e, v) b = b
      handle_request-Always self (ok (status, json_text), v) b =
          elim (Bool-cases (is_success status)) [
            | inr e ↦ rw e b
            | inl e ↦ elim (Result-cases (decode json_text)) [
              | inl (a, d) ↦ rw (e, d) b
              | inr (x, d) ↦ rw (e, d) b
            ]
          ]

      with_headers-Always :
          (method : Method) (url : Text) (body : Body Value) (self : Client) (v : V)
          (header : Option Text)
          → IsBearer self
          → Always (with_headers lib models decode method url body self v header)
      with_headers-Always method url body self v none b = b
      with_headers-Always method url body self v (some header) b =
          handle_request-Always self
            (lib.send
              (record { method = method; url = url; authorization = some header; body = body }) v)
            b

      pub authenticated-Always :
          (method : Method) (url : Text) (body : Body Value) (s : Client × V)
          → IsBearer s.0
          → Always (authenticated lib models decode method url body s)
      unfolding authenticated
      authenticated-Always method url body s b =
          continue-Always (ensure_authenticated lib s)
            (λ u. send_to lib models decode method url body) (ensure_authenticated-Always s b)
            (λ u (self, v) k. with_headers-Always method url body self v self.auth_header k)

      pub get_unauthenticated-Always :
          (url : Text) (s : Client × V)
          → IsBearer s.0
          → Always (get_unauthenticated lib models decode url s)
      unfolding get_unauthenticated
      get_unauthenticated-Always url (self, v) b =
          handle_request-Always self
            (lib.send
              (record { method = Method.get; url = url; authorization = none; body = no_body }) v)
            b

    -- A last step that only reads the answer.
    pub lift-Always :
        {A : Type 0} (r : Result Message A) (s : Client × V) → IsBearer s.0 → Always (lift r s)
    lift-Always r s b = lift-Post (λ s. IsBearer s.0) r s b

    pub get_device-Always :
        (d : DeviceType) (s : Client × V) → IsBearer s.0 → Always (get_device lib models d s)
    unfolding get_device
    get_device-Always d s b =
        continue-Always _ _ (get_unauthenticated-Always models.devices _ s b)
          (λ devices s'. lift-Always (first_device d devices) s')

    pub get_batch_results-Always :
        (id : Text) (s : Client × V) → IsBearer s.0 → Always (get_batch_results lib models id s)
    unfolding get_batch_results
    get_batch_results-Always id s b =
        continue-Always _ _ (authenticated-Always models.full_results _ _ _ s b)
          (λ answer s'. lift-Always (one_result models answer) s')

    pub specs_of-Always :
        (base_url : Text) (d : DeviceType) (s : Client × V)
        → IsBearer s.0
        → Always (specs_of lib models base_url d s)
    specs_of-Always base_url d s b = elim (Bool-cases (starts_with (codes "EMU") (device_name d))) [
      | inl e ↦ rw e (get_unauthenticated-Always models.public_specs _ s b)
      | inr e ↦ rw e (authenticated-Always models.device_specs _ _ _ s b)
    ]

    pub get_device_specs-Always :
        (d : DeviceType) (s : Client × V) → IsBearer s.0 → Always (get_device_specs lib models d s)
    unfolding get_device_specs
    get_device_specs-Always d s b =
        continue-Always _ _ (specs_of-Always s.0.base_url d s b)
          (λ specs s'. lift-Always (map_err message (models.print_specs specs)) s')
