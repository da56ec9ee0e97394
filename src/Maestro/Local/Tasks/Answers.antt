-- ===== src/Maestro/Local/Tasks/Answers.antt =====
-- What the server answers when a task is created (dependencies/maestro_rust_library/src/maestro/request.rs
-- and session.rs).
use qrmi.Prelude.{
  ℕ, ◌^◌, ◌≡◌, refl, inl, inr, true, Option, none, some, Bool, Bool-cases, ltb, ◌&&◌,
}
use qrmi.Text.{Text, codes, parse_u32, len_utf8}
use qrmi.Text.Printing.{parse_u32-lt}
use qrmi.Result.{Result, ok, err}
use qrmi.Exec.{Post, continue-Post}
use qrmi.Maestro.Socket.{Socket, Response, exchange, send_command}
use qrmi.Maestro.Session.{Task, create_task_at, parsed, in_session, id_in, value, to_session}
use qrmi.Maestro.Request.{
  Json, Error, call_with, submission, parse_submission_response, submit, submit_document,
  submit_parsed, ensure_negotiated, task_id_in, is_version, command_of, max_request_bytes,
  after_parse, parsed_exchange,
}

abbrev pub IsWord : ℕ → Type 0
IsWord n = ltb n (2 ^ 32) ≡ true

-- What the server answered when a task was created in a session: the reply to a native submission, or
-- to the command that creates a task.
pub data Answer {V Doc : Type 0} (socket : Socket V) (json : Json Doc) : Task → Type 0 where
  to_submission :
      {session_id id : ℕ} (request doc : Doc) (reply : Text) (v v' : V)
      → exchange socket (command_of json (submission json session_id request)) v ≡ (ok reply, v')
      → parse_submission_response json reply ≡ ok doc
      → json.as_u32 (json.member doc (codes "task_id")) ≡ some id
      → Answer socket json (record { id = id; session_id = session_id })
  to_create :
      {session_id id : ℕ} (id_str : Text) (v : V)
      → (send_command socket (to_session session_id (codes "TASK CREATE")) v).0
        ≡ Response.ok_response id_str
      → parse_u32 id_str ≡ some id
      → Answer socket json (record { id = id; session_id = session_id })

module _ {V Doc : Type 0} (socket : Socket V) (json : Json Doc) where
  -- A reply of which this document was read.
  abbrev Replied : Doc → (Text → Result Error Doc) → Doc → Type 0
  Replied document parse doc =
      (reply : Text) × (v : V) × (v' : V) × (exchange socket (command_of json document) v
        ≡ (ok reply, v'))
      × (parse reply ≡ ok doc)

  call_with-Replied :
      (document : Doc) (parse : Text → Result Error Doc) (w : Bool × V)
      → Post
          (λ doc u. Replied document parse doc)
          (λ e u. Unit {0})
          (call_with json socket document parse w)
  unfolding call_with
  call_with-Replied document parse (negotiated, v) =
      elim (Bool-cases (ltb max_request_bytes (len_utf8 (command_of json document)))) [
        | inl e ↦ rw e tt
        | inr e ↦ rw e (exchanged (exchange socket (command_of json document) v) refl)
      ]
    where
      read_as :
          (reply : Text) (v' : V) (r : Result Error Doc)
          → exchange socket (command_of json document) v ≡ (ok reply, v')
          → parse reply ≡ r
          → Post
              (λ doc u. Replied document parse doc)
              (λ e u. Unit {0})
              (after_parse json socket negotiated (r, v'))
      read_as reply v' (ok doc) h e = (reply, v, v', h, e)
      read_as reply v' (err x) h e = tt

      exchanged :
          (o : Result Text Text × V)
          → exchange socket (command_of json document) v ≡ o
          → Post
              (λ doc u. Replied document parse doc)
              (λ e u. Unit {0})
              (after_parse json socket negotiated (parsed_exchange json socket parse o))
      exchanged (err e, v') h = tt
      exchanged (ok reply, v') h = read_as reply v' (parse reply) h refl

  abbrev pub Numbered : ℕ → Result Error ℕ × (Bool × V) → Type 0
  Numbered session_id =
      Post (λ id w. IsWord id × Answer socket json (record { id = id; session_id = session_id }))
        (λ e w. Unit {0})

  module _ (as_u32_word : (d : Doc) (n : ℕ) → json.as_u32 d ≡ some n → IsWord n) where
    task_id_in-Numbered :
        (session_id : ℕ) (request response : Doc) (o : Option ℕ) (w : Bool × V)
        → Replied (submission json session_id request) (parse_submission_response json) response
        → json.as_u32 (json.member response (codes "task_id")) ≡ o
        → Numbered session_id (task_id_in json socket o w)
    task_id_in-Numbered session_id request response (some id) w (reply, v, v', e, p) h = (
      as_u32_word (json.member response (codes "task_id")) id h,
      to_submission request response reply v v' e p h,
    )
    task_id_in-Numbered session_id request response none w r h = tt

    ignored :
        {A : Type 0} (o : Result Error A × (Bool × V)) → Post (λ a w. Unit {0}) (λ e w. Unit {0}) o
    ignored (ok a, w) = tt
    ignored (err e, w) = tt

    submit_document-Numbered :
        (session_id : ℕ) (request : Doc) (w : Bool × V)
        → Numbered session_id (submit_document json socket session_id request w)
    submit_document-Numbered session_id request w =
        continue-Post (λ a u. Unit {0})
          (λ id u. IsWord id × Answer socket json (record { id = id; session_id = session_id }))
          (λ e u. Unit {0}) (ensure_negotiated json socket w) _
          (ignored (ensure_negotiated json socket w))
          (λ a u x.
            continue-Post
              (λ doc u'.
                Replied (submission json session_id request) (parse_submission_response json) doc)
              (λ id u'.
                IsWord id × Answer socket json (record { id = id; session_id = session_id }))
              (λ e u'. Unit {0})
              (call_with json socket (submission json session_id request)
                (parse_submission_response json) u)
              (λ response.
                task_id_in json socket (json.as_u32 (json.member response (codes "task_id"))))
              (call_with-Replied (submission json session_id request)
                (parse_submission_response json) u)
              (λ response u' replied.
                task_id_in-Numbered session_id request response
                  (json.as_u32 (json.member response (codes "task_id"))) u' replied refl))

    submit_parsed-Numbered :
        (session_id : ℕ) (r : Result Text Doc) (w : Bool × V)
        → Numbered session_id (submit_parsed json socket session_id r w)
    submit_parsed-Numbered session_id (err e) w = tt
    submit_parsed-Numbered session_id (ok request) w =
        elim (Bool-cases (
          json.is_object request
          && is_version (json.as_u32 (json.member request (codes "schema_version"))))) [
            | inl a ↦ rw a (submit_document-Numbered session_id request w)
            | inr a ↦ rw a tt
          ]

    pub submit-Numbered :
        (session_id : ℕ) (request : Text) (w : Bool × V)
        → Numbered session_id (submit json socket session_id request w)
    unfolding submit
    submit-Numbered session_id request w = submit_parsed-Numbered session_id (json.parse request) w

  -- A task that is created is in the session, has a number of 32 bits, and is the server's answer.
  abbrev pub Created : ℕ → Result Text Task → Type 0
  Created session_id (ok t) = (t.session_id ≡ session_id) × IsWord t.id × Answer socket json t
  Created session_id (err e) = Unit {0}

  pub create_task_at-Created :
      (session_id : ℕ) (v : V) → Created session_id (create_task_at socket session_id v).0
  unfolding create_task_at
  create_task_at-Created session_id v =
      replied (send_command socket (to_session session_id (codes "TASK CREATE")) v).0 refl
    where
      numbered :
          (id_str : Text) (o : Option ℕ)
          → (send_command socket (to_session session_id (codes "TASK CREATE")) v).0
            ≡ Response.ok_response id_str
          → parse_u32 id_str ≡ o
          → (failed : Text) → Created session_id (in_session session_id (id_in failed o))
      numbered id_str none h e failed = tt
      numbered id_str (some id) h e failed =
          (refl, parse_u32-lt id_str id e, to_create id_str v h e)

      replied :
          (r : Response)
          → (send_command socket (to_session session_id (codes "TASK CREATE")) v).0 ≡ r
          → Created session_id (
              in_session session_id (
                parsed (codes "Failed to parse task ID from response: ") (
                  value
                    (codes "Failed to create task: ")
                    (codes "Unexpected response when creating task")
                    r)))
      replied (Response.ok_response id_str) h = numbered id_str (parse_u32 id_str) h refl _
      replied (Response.error e) h = tt
      replied (Response.ok_flag b) h = tt
