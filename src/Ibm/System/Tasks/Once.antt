-- ===== src/Ibm/System/Tasks/Once.antt =====
-- How many tasks `task_start` of an IBM Quantum System creates.
use qrmi.Prelude.{true, false, ℕ, suc, ◌≡◌, ◌≢◌, Bool}
use qrmi.Errors.{QrmiErrorKind}
use qrmi.Errors.Kinds.{kind}
use qrmi.Text.{Text}
use qrmi.Result.{Result}
use qrmi.Exec.{Post, Exec}
use qrmi.Settings.{Env}
use qrmi.Ibm.System.Api.{SystemApi, SystemError, Request}
use qrmi.Ibm.System.{System, QrmiError}
use qrmi.Ibm.System.Tasks.{run}

-- The service says that it has not run the primitive. Every other error, of the way to it among
-- them, is told as `other_error`.
abbrev pub refuses : SystemError → Bool
refuses (SystemError.other_error message) = false
refuses _ = true

-- The service keeps a number of tasks, `count v` in the world `v`. Running a primitive adds one if it
-- succeeds, and none if it is refused.
pub record TaskStore {V Client Value : Type 0} (api : SystemApi V Client Value) (count : V → ℕ)
    : Type 0 where
  pub run :
      (c : Client) (q : Request Value) (v : V)
      → Post
          (λ id w. count w ≡ suc (count v))
          (λ e w. refuses e ≡ true → count w ≡ count v)
          (api.run_primitive c q v)

module _ {V Client Value : Type 0} (api : SystemApi V Client Value) (count : V → ℕ)
    (store : TaskStore api count) (env : Env) (self : System Client) where
  -- The count is `n`.
  abbrev Count : ℕ → V → Type 0
  Count n v = count v ≡ n

  -- After an error of a kind other than `Other` the count is `n`.
  abbrev Refused : ℕ → QrmiError → V → Type 0
  Refused n e v = kind e ≢ QrmiErrorKind.other → count v ≡ n
