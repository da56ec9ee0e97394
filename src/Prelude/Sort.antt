-- ===== src/Prelude/Sort.antt =====
-- Rust's `Iterator::filter` and `slice::sort_by_key`, which is stable, by keys that are integers.
use Prim.Native.Nat.{◌+◌, ◌≤◌}
use mathlib.Core.Path.{◌≡◌, refl, ap, ◌∙◌}
use mathlib.Core.Logic.{inl, inr}
use mathlib.Core.Bool.{Bool, true, false, ◌&&◌}
use mathlib.Core.List.{List, [], ◌∷◌, map}
use native.Mathlib.Omega.{arith}
use qrmi.Prelude.Tests.{◌==◌, if◌then◌else◌, Bool-cases}
use qrmi.Prelude.Lists.{All}
use qrmi.Prelude.Int.{ℤ, pos_part, neg_part, ltb_ℤ}

infix 50 ◌≤ℤ◌
abbrev pub ◌≤ℤ◌ : ℤ → ℤ → Type 0
a ≤ℤ b = pos_part a + neg_part b ≤ pos_part b + neg_part a

abbrev pub eq_ℤ : ℤ → ℤ → Bool
eq_ℤ a b = pos_part a + neg_part b == pos_part b + neg_part a

module _ {ℓ} {A : Type ℓ} where
  abbrev pub filter : (A → Bool) → List A → List A
  filter p [] = []
  filter p (x ∷ xs) = if p x then x ∷ filter p xs else filter p xs

  pub filter_comm : (p q : A → Bool) (xs : List A) → filter p (filter q xs) ≡ filter q (filter p xs)
  filter_comm p q [] = refl
  filter_comm p q (x ∷ xs) = ground (arith, filter_comm p q xs)

  pub filter-filter :
      (p q : A → Bool) (xs : List A) → filter p (filter q xs) ≡ filter (λ x. q x && p x) xs
  filter-filter p q [] = refl
  filter-filter p q (x ∷ xs) = ground (arith, filter-filter p q xs)

  pub filter-All {κ} :
      (P : A → Type κ) (p : A → Bool) (xs : List A) → All P xs → All P (filter p xs)
  filter-All P p [] h = tt
  filter-All P p (x ∷ xs) (h, hs) = elim (Bool-cases (p x)) [
    | inl e ↦ rw e (h, filter-All P p xs hs)
    | inr e ↦ rw e (filter-All P p xs hs)
  ]

other_key : (a b k : ℤ) → ltb_ℤ a b ≡ true → eq_ℤ a k ≡ true → eq_ℤ b k ≡ false
other_key a b k h e = ground arith

module _ {ℓ} {A : Type ℓ} (key : A → ℤ) where
  abbrev pub insert_by_key : A → List A → List A
  insert_by_key x [] = x ∷ []
  insert_by_key x (y ∷ ys) = if ltb_ℤ (key y) (key x) then y ∷ insert_by_key x ys else x ∷ y ∷ ys

  unfoldable pub sort_by_key : List A → List A
  sort_by_key [] = []
  sort_by_key (x ∷ xs) = insert_by_key x (sort_by_key xs)

  abbrev pub IsLeast : A → List A → Type 0
  IsLeast x = All (λ y. key x ≤ℤ key y)

  abbrev pub IsSorted : List A → Type 0
  IsSorted [] = Unit
  IsSorted (x ∷ xs) = IsLeast x xs × IsSorted xs

  IsLeast-trans : (x y : A) (zs : List A) → key x ≤ℤ key y → IsLeast y zs → IsLeast x zs
  IsLeast-trans x y [] h b = tt
  IsLeast-trans x y (z ∷ zs) h (l, b) = (omega arith, IsLeast-trans x y zs h b)

  insert-IsLeast :
      (x y : A) (zs : List A) → key x ≤ℤ key y → IsLeast x zs → IsLeast x (insert_by_key y zs)
  insert-IsLeast x y [] h b = (h, tt)
  insert-IsLeast x y (z ∷ zs) h (l, b) = elim (Bool-cases (ltb_ℤ (key z) (key y))) [
    | inl e ↦ rw e (l, insert-IsLeast x y zs h b)
    | inr e ↦ rw e (h, (l, b))
  ]

  insert-IsSorted : (x : A) (ys : List A) → IsSorted ys → IsSorted (insert_by_key x ys)
  insert-IsSorted x [] s = (tt, tt)
  insert-IsSorted x (y ∷ ys) (l, s) = elim (Bool-cases (ltb_ℤ (key y) (key x))) [
    | inl e ↦ rw e (insert-IsLeast y x ys (ground arith) l, insert-IsSorted x ys s)
    | inr e ↦ let h : key x ≤ℤ key y = ground arith in rw e ((h, IsLeast-trans x y ys h l), (l, s))
  ]

  pub sort_by_key-IsSorted : (xs : List A) → IsSorted (sort_by_key xs)
  unfolding sort_by_key
  sort_by_key-IsSorted [] = tt
  sort_by_key-IsSorted (x ∷ xs) = insert-IsSorted x (sort_by_key xs) (sort_by_key-IsSorted xs)

  -- Elements of one key keep their order, and no element comes or goes.
  insert-stable :
      (k : ℤ) (x : A) (ys : List A)
      → filter (λ y. eq_ℤ (key y) k) (insert_by_key x ys) ≡ filter (λ y. eq_ℤ (key y) k) (x ∷ ys)
  insert-stable k x [] = refl
  insert-stable k x (y ∷ ys) = elim (Bool-cases (ltb_ℤ (key y) (key x))) [
    | inr e ↦ rw e
    | inl e ↦ elim (Bool-cases (eq_ℤ (key y) k)) [
      | inr h ↦ rw (e, h) (insert-stable k x ys)
      | inl h ↦
          let n = other_key (key y) (key x) k e h in
          rw (e, h, n) (ap (◌∷◌ y) (rw n at (insert-stable k x ys)))
    ]
  ]

  pub sort_by_key-stable :
      (k : ℤ) (xs : List A)
      → filter (λ y. eq_ℤ (key y) k) (sort_by_key xs) ≡ filter (λ y. eq_ℤ (key y) k) xs
  unfolding sort_by_key
  sort_by_key-stable k [] = refl
  sort_by_key-stable k (x ∷ xs) =
      insert-stable k x (sort_by_key xs) ∙ ground (arith, sort_by_key-stable k xs)

  pub filter-IsSorted : (p : A → Bool) (xs : List A) → IsSorted xs → IsSorted (filter p xs)
  filter-IsSorted p [] s = tt
  filter-IsSorted p (x ∷ xs) (l, s) = elim (Bool-cases (p x)) [
    | inl e ↦ rw e (filter-All (λ y. key x ≤ℤ key y) p xs l, filter-IsSorted p xs s)
    | inr e ↦ rw e (filter-IsSorted p xs s)
  ]

  All-filter_tail {κ} :
      (P : A → Type κ) (y : A) (ys : List A) (k : ℤ)
      → All P (filter (λ z. eq_ℤ (key z) k) (y ∷ ys))
      → All P (filter (λ z. eq_ℤ (key z) k) ys)
  All-filter_tail P y ys k h = elim (Bool-cases (eq_ℤ (key y) k)) [
    | inl e ↦ (rw e at h).1
    | inr e ↦ rw e at h
  ]

  All-filters {κ} :
      (P : A → Type κ) (ys : List A)
      → ((k : ℤ) → All P (filter (λ y. eq_ℤ (key y) k) ys))
      → All P ys
  All-filters P [] h = tt
  All-filters P (y ∷ ys) h =
      let e : eq_ℤ (key y) (key y) ≡ true = ground arith in
      let head = rw e at (h (key y)) in
      (head.0, All-filters P ys (λ k. All-filter_tail P y ys k (h k)))

  -- Lists with the same elements of each key, in whatever order of the keys.
  pub All-same_by_key {κ} :
      (P : A → Type κ) (xs ys : List A)
      → ((k : ℤ) → filter (λ y. eq_ℤ (key y) k) xs ≡ filter (λ y. eq_ℤ (key y) k) ys)
      → All P xs
      → All P ys
  All-same_by_key P xs ys h hs =
      All-filters P ys (λ k. rw (← h k) (filter-All P (λ y. eq_ℤ (key y) k) xs hs))

-- Sorting what carries its key along.
module _ {ℓ κ} {A : Type ℓ} {B : Type κ} (key : A → ℤ) (f : A → B) where
  abbrev pub tagged : A → A × B
  tagged a = (a, f a)

  insert-map :
      (x : A) (ys : List A)
      → insert_by_key (λ (p : A × B). key p.0) (tagged x) (map tagged ys)
        ≡ map tagged (insert_by_key key x ys)
  insert-map x [] = refl
  insert-map x (y ∷ ys) = elim (Bool-cases (ltb_ℤ (key y) (key x))) [
    | inl e ↦ rw e (ap (◌∷◌ (tagged y)) (insert-map x ys))
    | inr e ↦ rw e
  ]

  pub sort_by_key-map :
      (xs : List A)
      → sort_by_key (λ (p : A × B). key p.0) (map tagged xs) ≡ map tagged (sort_by_key key xs)
  unfolding sort_by_key
  sort_by_key-map [] = refl
  sort_by_key-map (x ∷ xs) =
      ap (insert_by_key (λ (p : A × B). key p.0) (tagged x)) (sort_by_key-map xs)
      ∙ insert-map x (sort_by_key key xs)
