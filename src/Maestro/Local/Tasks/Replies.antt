-- ===== src/Maestro/Local/Tasks/Replies.antt =====
-- What a request to the Maestro server leaves of its tasks when it fails
-- (dependencies/maestro_rust_library/src/maestro/request.rs).
use qrmi.Prelude.{
  ℕ, ◌≡◌, ◌≢◌, ◌&&◌, refl, ◌∙◌, inl, inr, true, false, Option, none, some, Bool, Bool-cases,
  Option-cases, List, ltb,
}
use qrmi.Text.{Text, codes, strip_prefix, trim, len_utf8}
use qrmi.Result.{Result, ok, err, Result-cases}
use qrmi.Exec.{Post, continue, continue-Post, weaken-Post}
use qrmi.Errors.{QrmiErrorKind}
use qrmi.Errors.Kinds.{kind}
use qrmi.Maestro.Socket.{Socket, exchange}
use qrmi.Maestro.Request.{
  Json, Error, failure, parse_submission_response, parse_response, versioned, command_of,
  plain_command, submission, call_with, after_parse, parsed_exchange, capabilities, catalog, submit,
  submit_document, submit_parsed, ensure_negotiated, task_id_in, is_version, max_request_bytes,
}
use qrmi.Maestro.Local.{native_error}

module _ {V Doc : Type 0} (socket : Socket V) (json : Json Doc) (tasks : V → List (ℕ × ℕ)) where
  -- A reply by which the server says in API version 2 that it refuses.
  pub record IsRefusal (reply : Text) : Type 0 where
    pub document : Text
    pub doc : Doc
    pub framed : strip_prefix (codes "OK ") reply ≡ some document
    pub parsed : json.parse (trim document) ≡ ok doc
    pub version_2 : versioned json doc ≡ true
    pub refused : json.as_bool (json.member doc (codes "ok")) ≡ some false

  -- The tasks of the server: naming its capabilities creates none, nor does a request that it refuses.
  pub record IsServer : Type 0 where
    pub discovery :
        (v : V)
        → tasks (exchange socket (command_of json (plain_command json (codes "capabilities"))) v).1
          ≡ tasks v
    pub refusal :
        (session_id : ℕ) (request : Doc) (v v' : V) (reply : Text)
        → exchange socket (command_of json (submission json session_id request)) v ≡ (ok reply, v')
        → IsRefusal reply
        → tasks v' ≡ tasks v

  abbrev Harmless : Error → Type 0
  Harmless e = kind (native_error e) ≢ QrmiErrorKind.other

  protocol_other :
      (m : Text) → kind (native_error (failure (codes "protocol") m)) ≡ QrmiErrorKind.other
  unfolding kind native_error
  protocol_other m = refl

  transport_other :
      (m : Text) → kind (native_error (failure (codes "transport") m)) ≡ QrmiErrorKind.other
  unfolding kind native_error
  transport_other m = refl

  clash :
      (m : Text) (e : Error)
      → ◌≡◌ {A = Result Error Doc} (err (failure (codes "protocol") m)) (err e)
      → Harmless e
      → ⊥
  clash m e h n = let same : e ≡ failure (codes "protocol") m = cc in n (rw same (protocol_other m))

  agreed : (doc : Doc) (e : Error) → ◌≡◌ {A = Result Error Doc} (ok doc) (err e) → ⊥
  agreed doc e h = cc

  answer-IsRefusal :
      (reply : Text) (e : Error)
      → parse_submission_response json reply ≡ err e
      → Harmless e
      → IsRefusal reply
  unfolding parse_submission_response parse_response
  answer-IsRefusal reply e h n = elim (Option-cases (strip_prefix (codes "OK ") reply)) [
    | inl a ↦ absurd (clash _ e (rw a at h) n)
    | inr (document, a) ↦ elim (Result-cases (json.parse (trim document))) [
      | inr (m, b) ↦ absurd (clash _ e (rw (a, b) at h) n)
      | inl (doc, b) ↦ elim (Bool-cases (versioned json doc)) [
        | inr c ↦ absurd (clash _ e (rw (a, b, c) at h) n)
        | inl c ↦ elim (Option-cases (json.as_bool (json.member doc (codes "ok")))) [
          | inl d ↦ absurd (clash _ e (rw (a, b, c, d) at h) n)
          | inr (true, d) ↦ absurd (agreed doc e (rw (a, b, c, d) at h))
          | inr (false, d) ↦ record {
            document = document;
            doc = doc;
            framed = a;
            parsed = b;
            version_2 = c;
            refused = d;
          }
        ]
      ]
    ]
  ]

  -- The tasks are the same.
  abbrev Same : {A : Type 0} → V → Result Error A × (Bool × V) → Type 0
  Same v o = tasks o.1.1 ≡ tasks v

  -- The tasks are the same, unless it succeeds or the error is explained as `Other`.
  abbrev Refused : {A : Type 0} → V → Result Error A × (Bool × V) → Type 0
  Refused v = Post (λ a s. Unit {0}) (λ e s. Harmless e → tasks s.1 ≡ tasks v)

  parsed-Same :
      (negotiated : Bool) (v : V) (o : Result Text Text × V)
      → tasks o.1 ≡ tasks v
      → Same v
          (after_parse json socket negotiated (parsed_exchange json socket (parse_response json) o))
  parsed-Same negotiated v (err e, v') h = h
  parsed-Same negotiated v (ok reply, v') h = elim (Result-cases (parse_response json reply)) [
    | inl (doc, a) ↦ rw a h
    | inr (e, a) ↦ rw a h
  ]

  parsed-Refused :
      (negotiated : Bool) (session_id : ℕ) (request : Doc) (v : V) (server : IsServer)
      (o : Result Text Text × V)
      → exchange socket (command_of json (submission json session_id request)) v ≡ o
      → Refused v (
          after_parse json socket negotiated
            (parsed_exchange json socket (parse_submission_response json) o))
  parsed-Refused negotiated session_id request v server (err e, v') h =
      λ n. absurd (n (transport_other e))
  parsed-Refused negotiated session_id request v server (ok reply, v') h =
      elim (Result-cases (parse_submission_response json reply)) [
        | inl (doc, a) ↦ rw a tt
        | inr (e, a) ↦
            rw a
              (λ n. server.refusal session_id request v v' reply h (answer-IsRefusal reply e a n))
      ]

  module _ (server : IsServer) where
    discovery-Same :
        (negotiated : Bool) (v : V)
        → Same v (
            call_with json socket
              (plain_command json (codes "capabilities"))
              (parse_response json)
              (negotiated, v))
    unfolding call_with
    discovery-Same negotiated v =
        elim (Bool-cases (
          ltb max_request_bytes
            (len_utf8 (command_of json (plain_command json (codes "capabilities")))))) [
              | inl a ↦ rw a refl
              | inr a ↦ rw a (
                  parsed-Same negotiated v
                    (exchange socket (command_of json (plain_command json (codes "capabilities")))
                      v)
                    (server.discovery v))
            ]

    submission-Refused :
        (negotiated : Bool) (session_id : ℕ) (request : Doc) (v : V)
        → Refused v (
            call_with json socket
              (submission json session_id request)
              (parse_submission_response json)
              (negotiated, v))
    unfolding call_with
    submission-Refused negotiated session_id request v =
        elim (Bool-cases (
          ltb max_request_bytes
            (len_utf8 (command_of json (submission json session_id request))))) [
              | inl a ↦ rw a (λ n. refl)
              | inr a ↦ rw a (
                  parsed-Refused negotiated session_id request v server
                    (exchange socket (command_of json (submission json session_id request)) v) refl)
            ]

    -- The tasks are those of `v`, whatever the outcome.
    abbrev Untouched : {A : Type 0} → V → Result Error A × (Bool × V) → Type 0
    Untouched v = Post (λ a s. tasks s.1 ≡ tasks v) (λ e s. tasks s.1 ≡ tasks v)

    catalog-Untouched :
        (v : V) (doc : Doc) (w : Bool × V)
        → tasks w.1 ≡ tasks v
        → Untouched v (catalog json socket doc w)
    catalog-Untouched v doc w h =
        elim (Bool-cases (
          is_version (
            json.as_u32
              (json.member (json.member doc (codes "native")) (codes "schema_version"))))) [
                | inl a ↦ rw a h
                | inr a ↦ rw a h
              ]

    Same-Untouched :
        {A : Type 0} (v : V) (o : Result Error A × (Bool × V)) → Same v o → Untouched v o
    Same-Untouched v (ok a, w) h = h
    Same-Untouched v (err e, w) h = h

    capabilities-Untouched :
        (negotiated : Bool) (v : V) → Untouched v (capabilities json socket (negotiated, v))
    unfolding capabilities
    capabilities-Untouched negotiated v =
        continue-Post (λ a w. tasks w.1 ≡ tasks v) (λ a w. tasks w.1 ≡ tasks v)
          (λ e w. tasks w.1 ≡ tasks v)
          (call_with json socket (plain_command json (codes "capabilities")) (parse_response json)
            (false, v))
          (catalog json socket) (Same-Untouched v _ (discovery-Same false v))
          (λ doc w h. catalog-Untouched v doc w h)

    ensure_negotiated-Untouched :
        (negotiated : Bool) (v : V) → Untouched v (ensure_negotiated json socket (negotiated, v))
    ensure_negotiated-Untouched true v = refl
    ensure_negotiated-Untouched false v =
        continue-Post (λ a w. tasks w.1 ≡ tasks v) (λ a w. tasks w.1 ≡ tasks v)
          (λ e w. tasks w.1 ≡ tasks v) (capabilities json socket (false, v)) (λ c w. (ok tt, w))
          (capabilities-Untouched false v) (λ c w h. h)

    Refused-trans :
        {A : Type 0} (v v' : V) (o : Result Error A × (Bool × V))
        → tasks v' ≡ tasks v
        → Refused v' o
        → Refused v o
    Refused-trans v v' (ok a, w) h r = tt
    Refused-trans v v' (err e, w) h r = λ n. r n ∙ h

    task_id_in-Refused :
        (v : V) (id : Option ℕ) (w : Bool × V) → Refused v (task_id_in json socket id w)
    task_id_in-Refused v (some id) w = tt
    task_id_in-Refused v none w =
        λ n. absurd (n (protocol_other (codes "Missing task_id; the task may have been created")))

    sent-Refused :
        (session_id : ℕ) (request : Doc) (w : Bool × V)
        → Refused w.1 (
            continue
              (call_with json socket
                (submission json session_id request)
                (parse_submission_response json)
                w)
              (λ response.
                task_id_in json socket (json.as_u32 (json.member response (codes "task_id")))))
    sent-Refused session_id request w =
        continue-Post (λ a u. Unit {0}) (λ a u. Unit {0})
          (λ e u. Harmless e → tasks u.1 ≡ tasks w.1)
          (call_with json socket (submission json session_id request)
            (parse_submission_response json) w)
          (λ response.
            task_id_in json socket (json.as_u32 (json.member response (codes "task_id"))))
          (submission-Refused w.0 session_id request w.1)
          (λ response u x.
            task_id_in-Refused w.1 (json.as_u32 (json.member response (codes "task_id"))) u)

    submit_document-Refused :
        (session_id : ℕ) (request : Doc) (w : Bool × V)
        → Refused w.1 (submit_document json socket session_id request w)
    submit_document-Refused session_id request w =
        continue-Post (λ a u. tasks u.1 ≡ tasks w.1) (λ a u. Unit {0})
          (λ e u. Harmless e → tasks u.1 ≡ tasks w.1) (ensure_negotiated json socket w) _
          (weaken-Post (λ a u. tasks u.1 ≡ tasks w.1) (λ a u. tasks u.1 ≡ tasks w.1)
            (λ e u. tasks u.1 ≡ tasks w.1) (λ e u. Harmless e → tasks u.1 ≡ tasks w.1)
            (ensure_negotiated json socket w) (λ a u h. h) (λ e u h n. h)
            (ensure_negotiated-Untouched w.0 w.1))
          (λ a u h. Refused-trans w.1 u.1 _ h (sent-Refused session_id request u))

    submit_parsed-Refused :
        (session_id : ℕ) (r : Result Text Doc) (w : Bool × V)
        → Refused w.1 (submit_parsed json socket session_id r w)
    submit_parsed-Refused session_id (err e) w = λ n. refl
    submit_parsed-Refused session_id (ok request) w =
        elim (Bool-cases (
          json.is_object request
          && is_version (json.as_u32 (json.member request (codes "schema_version"))))) [
            | inl a ↦ rw a (submit_document-Refused session_id request w)
            | inr a ↦ rw a (λ n. refl)
          ]

    pub submit-Refused :
        (session_id : ℕ) (request : Text) (w : Bool × V)
        → Refused w.1 (submit json socket session_id request w)
    unfolding submit
    submit-Refused session_id request w = submit_parsed-Refused session_id (json.parse request) w
