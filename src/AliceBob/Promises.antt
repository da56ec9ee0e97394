-- ===== src/AliceBob/Promises.antt =====
-- What starting a task of Alice & Bob Felis does (src/alice_bob/felis.rs).
use qrmi.Prelude.{◌≡◌, ◌≢◌, ◌∙◌, refl, List, ◌∷◌}
use qrmi.Text.{Text}
use qrmi.Result.{Result, ok, err}
use qrmi.Exec.{Post}
use qrmi.Errors.{QrmiError, QrmiErrorKind}
use qrmi.Errors.Kinds.{kind}
use qrmi.Models.{Payload}
use qrmi.AliceBob.{
  Api, ApiError, AliceBobFelis, backend, classify, create, after_create, uploaded, task_start,
}

module _ {V Auth Value : Type 0} (api : Api V Auth Value) (self : AliceBobFelis Auth)
    (jobs : V → List Text) where
  -- The service has `jobs`: a new one is there once it was answered, a refusal has created none, and
  -- an input changes none.
  pub record IsService : Type 0 where
    pub created :
        (params : Value) (id : Text) (v v' : V)
        → api.create_job self.config self.felis_target params v ≡ (ok id, v')
        → jobs v' ≡ id ∷ jobs v
    pub refused :
        (params : Value) (e : ApiError) (v v' : V)
        → api.create_job self.config self.felis_target params v ≡ (err e, v')
        → kind (classify backend e) ≢ QrmiErrorKind.other
        → jobs v' ≡ jobs v
    pub keeps :
        (id human_qir : Text) (v : V)
        → jobs (api.upload_input self.config id human_qir v).1 ≡ jobs v

  module _ (service : IsService) (v : V) where
    -- One new job, or no job if the error is of a kind other than `Other`.
    abbrev pub Started : Result QrmiError Text × V → Type 0
    Started =
        Post (λ id v'. jobs v' ≡ id ∷ jobs v)
          (λ e v'. kind e ≢ QrmiErrorKind.other → jobs v' ≡ jobs v)

    uploaded-Started :
        (id : Text) (o : Result ApiError (Unit {0}) × V)
        → jobs o.1 ≡ id ∷ jobs v
        → Started (uploaded api self id o)
    unfolding kind
    uploaded-Started id (ok u, v') h = h
    uploaded-Started id (err e, v') h = λ n. absurd (n refl)

    after_create-Started :
        (human_qir : Text) (params : Value) (o : Result ApiError Text × V)
        → api.create_job self.config self.felis_target params v ≡ o
        → Started (after_create api self human_qir o)
    after_create-Started human_qir params (err e, v') h = service.refused params e v v' h
    after_create-Started human_qir params (ok id, v') h =
        uploaded-Started id (api.upload_input self.config id human_qir v')
          (service.keeps id human_qir v' ∙ service.created params id v v' h)

    create-Started :
        (human_qir : Text) (r : Result Text Value) → Started (create api self human_qir r v)
    create-Started human_qir (err e) = λ n. refl
    create-Started human_qir (ok params) =
        after_create-Started human_qir params
          (api.create_job self.config self.felis_target params v) refl

    -- On a service that creates no job when it refuses one: if `task_start` succeeds, the service has
    -- one job more, of the task's name, and if it fails with an error of a kind other than `Other`,
    -- the service has the jobs it had. A failed upload of the input is never such an error.
    pub task_start_creates : (payload : Payload) → Started (task_start api self payload v)
    unfolding task_start
    task_start_creates (Payload.alice_bob_felis human_qir input_params) =
        create-Started human_qir (api.from_str input_params)
    task_start_creates _ = λ n. refl
