-- ===== src/Prelude/Lists.antt =====
-- Lists measured by native numbers, and the options that the program chains.
use Prim.Native.Nat.{ℕ, zero, suc, ◌+◌, ◌≤◌, ◌<◌}
use mathlib.Core.Path.{◌≡◌, refl, sym, ◌∙◌}
use mathlib.Core.Logic.{◌⊎◌, inl, inr}
use mathlib.Core.Bool.{Bool, true, false, ◌||◌}
use mathlib.Core.Option.{Option, none, some}
use mathlib.Core.List.{List, [], ◌∷◌, ◌++◌}
use native.Mathlib.Nat.{zero-add, suc-add}
use native.Mathlib.Omega.{arith}

module _ {ℓ} {A : Type ℓ} where
  abbrev pub length : List A → ℕ
  length [] = 0
  length (x ∷ xs) = suc (length xs)

  abbrev pub get_elem? : List A → ℕ → Option A
  get_elem? [] i = none
  get_elem? (x ∷ xs) zero = some x
  get_elem? (x ∷ xs) (suc i) = get_elem? xs i

  abbrev pub take : ℕ → List A → List A
  take zero xs = []
  take (suc n) [] = []
  take (suc n) (x ∷ xs) = x ∷ take n xs

  abbrev pub drop : ℕ → List A → List A
  drop zero xs = xs
  drop (suc n) [] = []
  drop (suc n) (x ∷ xs) = drop n xs

  abbrev pub any : (A → Bool) → List A → Bool
  any p [] = false
  any p (x ∷ xs) = p x || any p xs

  abbrev pub is_empty : List A → Bool
  is_empty [] = true
  is_empty (x ∷ xs) = false

  pub length-append : (xs ys : List A) → length (xs ++ ys) ≡ length xs + length ys
  length-append [] ys = omega arith
  length-append (x ∷ xs) ys = omega (arith, length-append xs ys)

  pub any-take-drop :
      (p : A → Bool) (n : ℕ) (xs : List A) → any p xs ≡ any p (take n xs) || any p (drop n xs)
  any-take-drop p zero xs = refl
  any-take-drop p (suc n) [] = refl
  any-take-drop p (suc n) (x ∷ xs) = ground (arith, any-take-drop p n xs)

  drop-nil : (n : ℕ) → drop n [] ≡ []
  drop-nil zero = refl
  drop-nil (suc n) = refl

  pub drop-drop : (n m : ℕ) (xs : List A) → drop n (drop m xs) ≡ drop (m + n) xs
  drop-drop n zero xs = rw zero-add
  drop-drop n (suc m) [] = drop-nil n ∙ sym (drop-nil (suc m + n))
  drop-drop n (suc m) (x ∷ xs) = rw suc-add (drop-drop n m xs)

  -- A page that is not full is the last.
  pub drop-take : (n : ℕ) (xs : List A) → length (take n xs) < n → drop n xs ≡ []
  drop-take zero xs h = absurd (omega (arith, h))
  drop-take (suc n) [] h = refl
  drop-take (suc n) (x ∷ xs) h = drop-take n xs (omega (arith, h))

  pub drop-beyond : (n : ℕ) (xs : List A) → length xs ≤ n → drop n xs ≡ []
  drop-beyond zero [] h = refl
  drop-beyond (suc n) [] h = refl
  drop-beyond zero (x ∷ xs) h = absurd (omega (arith, h))
  drop-beyond (suc n) (x ∷ xs) h = drop-beyond n xs (omega (arith, h))

  pub length-take_le : (n : ℕ) (xs : List A) → length (take n xs) ≤ n
  length-take_le zero xs = omega arith
  length-take_le (suc n) [] = omega arith
  length-take_le (suc n) (x ∷ xs) = omega (arith, length-take_le n xs)

-- A predicate at every element of a list.
abbrev pub All {ℓ κ} : {A : Type ℓ} → (A → Type κ) → List A → Type κ
All P [] = Unit
All P (x ∷ xs) = P x × All P xs

module _ {A : Type 0} where
  -- The element stands in the list.
  abbrev pub Among : A → List A → Type 0
  Among x [] = ⊥
  Among x (y ∷ ys) = (x ≡ y) ⊎ Among x ys

  All-Among_tail :
      (y : A) (xs ys : List A) → All (λ x. Among x ys) xs → All (λ x. Among x (y ∷ ys)) xs
  All-Among_tail y [] ys h = tt
  All-Among_tail y (x ∷ xs) ys (h, hs) = (inr h, All-Among_tail y xs ys hs)

  pub All-Among : (xs : List A) → All (λ x. Among x xs) xs
  All-Among [] = tt
  All-Among (x ∷ xs) = (inl refl, All-Among_tail x xs xs (All-Among xs))

module _ {ℓ} {A : Type ℓ} where
  -- Rust's `Option::or`, `Option::unwrap_or`, `Option::filter` and `Option::is_some`.
  abbrev pub or_option : Option A → Option A → Option A
  or_option (some a) o = some a
  or_option none o = o

  abbrev pub unwrap_or : Option A → A → A
  unwrap_or (some a) d = a
  unwrap_or none d = d

  abbrev pub keep_if : (A → Bool) → Option A → Option A
  keep_if p none = none
  keep_if p (some a) = elim (p a) [ true ↦ some a | false ↦ none ]

  abbrev pub is_some : Option A → Bool
  is_some none = false
  is_some (some a) = true

-- Rust's `Option::and_then`.
abbrev pub and_then {ℓ κ} : {A : Type ℓ} {B : Type κ} → Option A → (A → Option B) → Option B
and_then none f = none
and_then (some a) f = f a
