-- ===== src/Runner/Choice.antt =====
-- `find_qpu_type` (src/bin/task_runner.rs): the type of the QPU that the user names, from the lists of
-- the job's QPUs and types, which `main` reads without comparing their lengths.
use qrmi.Prelude.{
  ℕ, zero, suc, ◌≤◌, ◌≡◌, ◌↔◌, refl, Option, none, some, List, [], ◌∷◌, length, get_elem?,
  if◌then◌else◌, arith,
}
use qrmi.Text.{Text, eq_text}

-- `iter().position(|&r| r == qpu_name)`.
unfoldable pub position : Text → List Text → Option ℕ
unfolding eq_text
position qpu_name [] = none
position qpu_name (r ∷ rs) =
    let rest = position qpu_name rs in if eq_text r qpu_name then some 0 else further rest
  where
    further : Option ℕ → Option ℕ
    further none = none
    further (some i) = some (suc i)

-- `qpu_types[index]`; `none` is a panic.
abbrev pub indexed : Option Text → Option (Option Text)
indexed none = none
indexed (some qpu_type) = some (some qpu_type)

abbrev pub type_at : List Text → Option ℕ → Option (Option Text)
type_at qpu_types none = some none
type_at qpu_types (some index) = indexed (get_elem? qpu_types index)

unfoldable pub find_qpu_type : List Text → List Text → Text → Option (Option Text)
unfolding position
find_qpu_type qpu_resources qpu_types qpu_name = type_at qpu_types (position qpu_name qpu_resources)

indexed-none : (xs : List Text) (i : ℕ) → (indexed (get_elem? xs i) ≡ none) ↔ (length xs ≤ i)
indexed-none [] i = ground arith
indexed-none (x ∷ xs) zero = ground arith
indexed-none (x ∷ xs) (suc i) = ground (arith, indexed-none xs i)

type_at-none :
    (qpu_types : List Text) (place : Option ℕ)
    → (type_at qpu_types place ≡ none) ↔ ((i : ℕ) × (place ≡ some i) × (length qpu_types ≤ i))
type_at-none qpu_types none = (λ h. cc, λ p. let (i, e, l) = p in cc)
type_at-none qpu_types (some j) = (
  λ h. (j, refl, (indexed-none qpu_types j).0 h),
  λ p. let (i, e, l) = p in let same : j ≡ i = cc in (indexed-none qpu_types j).1 (rw same l),
)

-- The program panics exactly if the QPU is in the list of names, and the list of types ends before
-- the QPU's place.
find_qpu_type-none :
    (qpu_resources qpu_types : List Text) (qpu_name : Text)
    → (find_qpu_type qpu_resources qpu_types qpu_name ≡ none)
      ↔ ((i : ℕ) × (position qpu_name qpu_resources ≡ some i) × (length qpu_types ≤ i))
unfolding find_qpu_type
find_qpu_type-none qpu_resources qpu_types qpu_name =
    type_at-none qpu_types (position qpu_name qpu_resources)
