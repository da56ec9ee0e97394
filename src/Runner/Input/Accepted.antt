-- ===== src/Runner/Input/Accepted.antt =====
-- Which input files for Maestro the task runner takes (src/bin/task_runner.rs), and that the resource
-- takes their requests (src/maestro/local.rs).
use qrmi.Prelude.{
  ℕ, ◌^◌, ◌≡◌, refl, inl, inr, Bool, true, false, not, ◌||◌, Option, none, some, [], ◌==◌, ltb, any,
  Bool-cases, Option-cases, ap, ◌∙◌,
}
use qrmi.Text.{Text, codes}
use qrmi.Result.{Result, ok, Holds, bind-Holds}
use qrmi.Json.{Value, Fields, Codec, lookup, is_string, number, pos_int, as_object, object, string}
use qrmi.Runner.Input.{
  ResourceType, maestro_local, InputError, maestro_input, native_input, legacy_input,
  native_request, checked_envelope, checked_job, is_known, is_config, is_native, is_mixed, keys_of,
  unwrapped, refuse_if, value_in, text_in, u32_in, bounded, text_or_empty, value_or_null,
  native_or_legacy, input_of, names_request, unless_wrapped, has,
}

abbrev IsWord : ℕ → Type 0
IsWord n = ltb n (2 ^ 32) ≡ true

-- Where a document holds a request: under `request`, or it is one itself, with a schema version, or
-- under `input`, where the type of the job says so.
pub data Holding (fields : Fields) : Value → Type 0 where
  under_request : {held : Value} → lookup (codes "request") fields ≡ some held → Holding fields held
  whole :
      lookup (codes "request") fields ≡ none
      → has fields (codes "schema_version") ≡ true
      → Holding fields (object fields)
  under_input :
      {held : Value}
      → lookup (codes "request") fields ≡ none
      → has fields (codes "schema_version") ≡ false
      → names_request (lookup (codes "job_type") fields) ≡ true
      → lookup (codes "input") fields ≡ some held
      → Holding fields held

-- A request stands as a value, or as the text of one.
pub data Stands (codec : Codec) (request : Value) : Value → Type 0 where
  as_value : Stands codec request request
  as_text : {t : Text} → codec.from_str t ≡ some request → Stands codec request (string t)

pub record IsRequestOf (codec : Codec) (value request : Value) : Type 0 where
  pub fields : Fields
  pub held : Value
  pub is_document : value ≡ object fields
  pub is_held : Holding fields held
  pub stands : Stands codec request held

-- The two forms of what an input file is taken as.
pub data IsAccepted (codec : Codec) (value : Value) : ResourceType → Type 0 where
  native :
      {request : Value}
      → IsRequestOf codec value request
      → is_native request ≡ true
      → any is_mixed (keys_of request) ≡ false
      → IsAccepted codec value
          (maestro_local (codec.to_string request) (codes "request") 0 0 0 [] (codes "{}"))
  legacy :
      {input job_type observables config : Text} {qubits simulator_type simulation_method : ℕ}
      → is_known job_type ≡ true
      → (qubits == 0) ≡ false
      → IsWord qubits
      → IsWord simulator_type
      → IsWord simulation_method
      → IsAccepted codec value
          (maestro_local input job_type qubits simulator_type simulation_method observables config)

refuse_if-false : (b : Bool) (t : Text) (u : Unit {0}) → refuse_if b t ≡ ok u → b ≡ false
refuse_if-false true t u h = cc
refuse_if-false false t u h = refl

bounded-IsWord : (n m : ℕ) → bounded n ≡ ok m → IsWord m
bounded-IsWord n m h = elim (Bool-cases (ltb n (2 ^ 32))) [
  | inl e ↦ let same : n ≡ m = cc (rw e at h) in rw same at e
  | inr e ↦ absurd (cc (rw e at h))
]

u32_in-IsWord : (o : Option Value) (n : ℕ) → u32_in o ≡ ok n → IsWord n
u32_in-IsWord (some (number (pos_int m))) n h = bounded-IsWord m n h
u32_in-IsWord _ n h = cc

of_not : (b : Bool) → not b ≡ false → b ≡ true
of_not true h = refl
of_not false h = cc

left_false : (a b : Bool) → (a || b) ≡ false → a ≡ false
left_false true b h = cc
left_false false b h = refl

unless_wrapped-Holding :
    (fields : Fields) (o : Option Value)
    → lookup (codes "request") fields ≡ o
    → (held : Value) → unless_wrapped fields o ≡ ok (some held)
    → Holding fields held
unless_wrapped-Holding fields (some request) e held h =
    let same : some request ≡ some held = cc in under_request (e ∙ same)
unless_wrapped-Holding fields none e held h =
    elim (Bool-cases (has fields (codes "schema_version"))) [
      | inl v ↦ let same : object fields ≡ held = cc (rw v at h) in rw same at (whole e v)
      | inr v ↦ elim (Bool-cases (names_request (lookup (codes "job_type") fields))) [
        | inr j ↦ absurd (cc (rw (v, j) at h))
        | inl j ↦ elim (Option-cases (lookup (codes "input") fields)) [
          | inl i ↦ absurd (cc (rw (v, j, i) at h))
          | inr (input, i) ↦
              let same : input ≡ held = cc (rw (v, j, i) at h) in
              under_input e v j (i ∙ ap some same)
        ]
      ]
    ]

unwrapped-Stands :
    (codec : Codec) (held request : Value)
    → unwrapped codec held ≡ ok request
    → Stands codec request held
unwrapped-Stands codec (string t) request h = elim (Option-cases (codec.from_str t)) [
  | inl e ↦ absurd (cc (rw e at h))
  | inr (read_value, e) ↦ as_text (e ∙ (cc (rw e at h)))
]
unwrapped-Stands codec held request h = let same : held ≡ request = cc in rw same as_value

object-as_object :
    (value : Value) (fields : Fields) → as_object value ≡ some fields → value ≡ object fields
object-as_object (object fields') fields h = ap object cc
object-as_object _ fields h = absurd cc

module _ (codec : Codec) (value : Value) where
  abbrev Fine : Result InputError ResourceType → Type 0
  Fine = Holds (IsAccepted codec value)

  native_input-IsAccepted :
      (fields : Fields) (wrapped : Value)
      → value ≡ object fields
      → Holding fields wrapped
      → Fine (native_input codec wrapped)
  unfolding native_input
  native_input-IsAccepted fields wrapped document holding =
      bind-Holds (IsAccepted codec value) (unwrapped codec wrapped) _ (λ request e.
        bind-Holds (IsAccepted codec value) (refuse_if (not (is_native request)) _) _ (λ u e1.
          bind-Holds (IsAccepted codec value) (refuse_if (any is_mixed (keys_of request)) _) _
            (λ u' e2.
              native
                (record {
                  fields = fields;
                  held = wrapped;
                  is_document = document;
                  is_held = holding;
                  stands = unwrapped-Stands codec wrapped request e;
                })
                (of_not (is_native request) (refuse_if-false (not (is_native request)) _ u e1))
                (refuse_if-false (any is_mixed (keys_of request)) _ u' e2))))

  module _ (input : Value) (job_type observables : Text) (qubits sim method : ℕ) (config : Value)
      (w0 : IsWord qubits) (w1 : IsWord sim) (w2 : IsWord method) where
    -- The checks of a legacy job that was read, and what they leave.
    abbrev checks : Result InputError ResourceType
    checks = checked_job codec input job_type qubits sim method observables config

    checks-IsAccepted : Fine checks
    unfolding checked_job
    checks-IsAccepted =
        bind-Holds (IsAccepted codec value) (refuse_if (not (is_known job_type)) _) _ (λ u e1.
          bind-Holds (IsAccepted codec value) (refuse_if (not (is_config config)) _) _ (λ u' e2.
            bind-Holds (IsAccepted codec value) (refuse_if (qubits == 0 || not (is_string input)) _)
              _
              (λ u'' e3.
                legacy
                  (of_not (is_known job_type) (refuse_if-false (not (is_known job_type)) _ u e1))
                  (left_false (qubits == 0) (not (is_string input))
                    (refuse_if-false (qubits == 0 || not (is_string input)) _ u'' e3))
                  w0 w1 w2)))

  legacy_input-IsAccepted : (fields : Fields) → Fine (legacy_input codec fields)
  unfolding legacy_input
  legacy_input-IsAccepted fields =
      bind-Holds (IsAccepted codec value) (value_in (lookup (codes "input") fields)) _ (λ input e0.
        bind-Holds (IsAccepted codec value) (text_in (lookup (codes "job_type") fields)) _
          (λ job_type e1.
            bind-Holds (IsAccepted codec value) (u32_in (lookup (codes "qubits") fields)) _
              (λ qubits e2.
                bind-Holds (IsAccepted codec value)
                  (u32_in (lookup (codes "simulator_type") fields)) _
                  (λ sim e3.
                    bind-Holds (IsAccepted codec value)
                      (u32_in (lookup (codes "simulation_method") fields)) _
                      (λ method e4.
                        bind-Holds (IsAccepted codec value)
                          (text_or_empty (lookup (codes "observables") fields)) _
                          (λ observables e5.
                            checks-IsAccepted input job_type observables qubits sim method
                              (value_or_null (lookup (codes "config") fields))
                              (u32_in-IsWord (lookup (codes "qubits") fields) qubits e2)
                              (u32_in-IsWord (lookup (codes "simulator_type") fields) sim e3)
                              (u32_in-IsWord (lookup (codes "simulation_method") fields) method
                                e4)))))))

  native_or_legacy-IsAccepted :
      (fields : Fields) (native : Option Value)
      → value ≡ object fields
      → ((held : Value) → native ≡ some held → Holding fields held)
      → Fine (native_or_legacy codec fields native)
  native_or_legacy-IsAccepted fields none e h = legacy_input-IsAccepted fields
  native_or_legacy-IsAccepted fields (some request) e h =
      native_input-IsAccepted fields request e (h request refl)

  native_request-Holding :
      (fields : Fields) (native : Option Value)
      → native_request fields ≡ ok native
      → (held : Value) → native ≡ some held
      → Holding fields held
  unfolding native_request
  native_request-Holding fields found e held h =
      unless_wrapped-Holding fields (lookup (codes "request") fields) refl held (e ∙ ap ok h)

  input_of-IsAccepted : (o : Option Fields) → as_object value ≡ o → Fine (input_of codec o)
  input_of-IsAccepted none e = tt
  input_of-IsAccepted (some fields) e =
      bind-Holds (IsAccepted codec value) (checked_envelope fields) _ (λ u e1.
        bind-Holds (IsAccepted codec value) (native_request fields) _ (λ native e2.
          native_or_legacy-IsAccepted fields native (object-as_object value fields e)
            (native_request-Holding fields native e2)))

-- What an input file for Maestro is taken as: a request of schema version 2 that it holds, without the
-- names of another envelope, printed, under numbers that are zero; or else a job to execute or to
-- estimate, on one qubit or more, whose three numbers have 32 bits.
pub maestro_input-IsAccepted :
    (codec : Codec) (value : Value) → Holds (IsAccepted codec value) (maestro_input codec value)
unfolding maestro_input
maestro_input-IsAccepted codec value = input_of-IsAccepted codec value (as_object value) refl
