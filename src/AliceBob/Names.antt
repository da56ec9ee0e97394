-- ===== src/AliceBob/Names.antt =====
-- The names of Felis' targets and of their devices (src/alice_bob/felis.rs).
use qrmi.Prelude.{
  ℕ, zero, ◌≡◌, refl, ap, ◌∙◌, false, [], ◌∷◌, ◌++◌, map, ◌==◌, if◌then◌else◌, length, drop, arith,
  ◌<◌, sym, Bool-cases, inl, inr, suc,
}
use mathlib.Core.List.{map-append}
use qrmi.Text.{
  Text, codes, starts_with, to_ascii_lowercase, to_ascii_uppercase, lower_char, upper_char,
}
use qrmi.Text.Laws.{Free}

-- `str::replace` of one char by another, and `str::replacen`.
unfoldable pub replace : ℕ → ℕ → Text → Text
replace from to [] = []
replace from to (c ∷ s) = (if c == from then to else c) ∷ replace from to s

unfoldable pub replacen : ℕ → ℕ → Text → ℕ → Text
replacen from to [] n = []
replacen from to (c ∷ s) zero = c ∷ s
replacen from to (c ∷ s) (suc n) =
    let replaced = replacen from to s n in
    let kept = replacen from to s (suc n) in if c == from then to ∷ replaced else c ∷ kept

-- `str::to_lowercase` and `str::to_uppercase`, by the tables of Unicode, are arguments.
unfoldable pub target_to_device : (Text → Text) → Text → Text
unfolding replace
target_to_device to_lowercase target = codes "ab_" ++ to_lowercase (replace b':' b'_' target)

abbrev pub strip_prefix_or_self : Text → Text → Text
strip_prefix_or_self prefix s = if starts_with prefix s then drop (length prefix) s else s

unfoldable pub device_to_target : (Text → Text) → Text → Text
unfolding starts_with replacen
device_to_target to_uppercase device =
    to_uppercase (replacen b'_' b':' (strip_prefix_or_self (codes "ab_") device) 2)

-- A part of a name that the upper case leaves as it is.
abbrev pub IsUpper : Text → Type 0
IsUpper s = to_ascii_uppercase (to_ascii_lowercase s) ≡ s

replace-Free : (x y : ℕ) (s : Text) → Free x s → replace x y s ≡ s
unfolding replace
replace-Free x y [] f = refl
replace-Free x y (c ∷ s) (n, f) = rw (n, replace-Free x y s f)

-- The device's name up to the end of a part, and behind it.
lowered_part :
    (s t : Text)
    → Free b':' s
    → to_ascii_lowercase (replace b':' b'_' (s ++ (b':' ∷ t)))
      ≡ to_ascii_lowercase s ++ (b'_' ∷ to_ascii_lowercase (replace b':' b'_' t))
unfolding replace to_ascii_lowercase
lowered_part [] t f = refl
lowered_part (c ∷ s) t (n, f) = rw n (ap (◌∷◌ (lower_char c)) (lowered_part s t f))

lower_char-underscore : (c : ℕ) → (c == b'_') ≡ false → (lower_char c == b'_') ≡ false
unfolding lower_char
lower_char-underscore c h = ground arith

Free-to_ascii_lowercase : (s : Text) → Free b'_' s → Free b'_' (to_ascii_lowercase s)
unfolding to_ascii_lowercase
Free-to_ascii_lowercase [] f = tt
Free-to_ascii_lowercase (c ∷ s) (n, f) = (lower_char-underscore c n, Free-to_ascii_lowercase s f)

replacen_zero : (x y : ℕ) (s : Text) → replacen x y s 0 ≡ s
unfolding replacen
replacen_zero x y [] = refl
replacen_zero x y (c ∷ s) = refl

-- The first match stands behind a part without any.
replacen-Free :
    (x y : ℕ) (s t : Text) (n : ℕ)
    → Free x s
    → replacen x y (s ++ (x ∷ t)) (suc n) ≡ s ++ (y ∷ replacen x y t n)
unfolding replacen
replacen-Free x y [] t n f = ground arith
replacen-Free x y (c ∷ s) t n (k, f) = rw (k, replacen-Free x y s t n f)

-- The part is in capitals again.
raised_part :
    (s t : Text)
    → IsUpper s
    → to_ascii_uppercase (to_ascii_lowercase s ++ (b':' ∷ t)) ≡ s ++ (b':' ∷ to_ascii_uppercase t)
unfolding to_ascii_uppercase
raised_part s t u =
    map-append upper_char (to_ascii_lowercase s) (b':' ∷ t)
    ∙ ap (λ r. r ++ (b':' ∷ map upper_char t)) u

stripped :
    (to_uppercase : Text → Text) (s : Text)
    → device_to_target to_uppercase (codes "ab_" ++ s) ≡ to_uppercase (replacen b'_' b':' s 2)
unfolding device_to_target starts_with
stripped to_uppercase s = refl

-- A name in ASCII.
unfoldable pub IsAscii : Text → Type 0
IsAscii [] = Unit
IsAscii (c ∷ s) = (c < 128) × IsAscii s

IsAscii-append : (s t : Text) → IsAscii s → IsAscii t → IsAscii (s ++ t)
unfolding IsAscii
IsAscii-append [] t a b = b
IsAscii-append (c ∷ s) t (l, a) b = (l, IsAscii-append s t a b)

IsAscii-replace : (s : Text) → IsAscii s → IsAscii (replace b':' b'_' s)
unfolding replace IsAscii
IsAscii-replace [] a = tt
IsAscii-replace (c ∷ s) (l, a) = (ground (arith, l), IsAscii-replace s a)

IsAscii-replacen : (s : Text) (n : ℕ) → IsAscii s → IsAscii (replacen b'_' b':' s n)
unfolding replacen IsAscii
IsAscii-replacen [] n a = tt
IsAscii-replacen (c ∷ s) zero a = a
IsAscii-replacen (c ∷ s) (suc n) (l, a) = elim (Bool-cases (c == b'_')) [
  | inl e ↦ rw e (ground arith, IsAscii-replacen s n a)
  | inr e ↦ rw e (l, IsAscii-replacen s (suc n) a)
]

IsAscii-to_ascii_lowercase : (s : Text) → IsAscii s → IsAscii (to_ascii_lowercase s)
unfolding to_ascii_lowercase lower_char IsAscii
IsAscii-to_ascii_lowercase [] a = tt
IsAscii-to_ascii_lowercase (c ∷ s) (l, a) = (ground (arith, l), IsAscii-to_ascii_lowercase s a)

-- The same with the lower and upper case of ASCII.
ascii_again :
    (a b c : Text)
    → Free b':' a
    → Free b'_' a
    → Free b':' b
    → Free b'_' b
    → Free b':' c
    → IsUpper a
    → IsUpper b
    → IsUpper c
    → device_to_target to_ascii_uppercase
        (target_to_device to_ascii_lowercase (a ++ (b':' ∷ (b ++ (b':' ∷ c)))))
      ≡ a ++ (b':' ∷ (b ++ (b':' ∷ c)))
unfolding target_to_device
ascii_again a b c a1 a2 b1 b2 c1 ua ub uc =
    let lowered =
      lowered_part a (b ++ (b':' ∷ c)) a1
      ∙ ap (λ t. to_ascii_lowercase a ++ (b'_' ∷ t))
          (lowered_part b c b1
            ∙ ap (λ t. to_ascii_lowercase b ++ (b'_' ∷ to_ascii_lowercase t))
                (replace-Free b':' b'_' c c1)) in
    let parted =
      replacen-Free b'_' b':' (to_ascii_lowercase a)
        (to_ascii_lowercase b ++ (b'_' ∷ to_ascii_lowercase c)) 1 (Free-to_ascii_lowercase a a2)
      ∙ ap (λ t. to_ascii_lowercase a ++ (b':' ∷ t))
          (replacen-Free b'_' b':' (to_ascii_lowercase b) (to_ascii_lowercase c) 0
              (Free-to_ascii_lowercase b b2)
            ∙ ap (λ t. to_ascii_lowercase b ++ (b':' ∷ t))
                (replacen_zero b'_' b':' (to_ascii_lowercase c))) in
    let raised =
      raised_part a (to_ascii_lowercase b ++ (b':' ∷ to_ascii_lowercase c)) ua
      ∙ ap (λ t. a ++ (b':' ∷ t))
          (raised_part b (to_ascii_lowercase c) ub ∙ ap (λ t. b ++ (b':' ∷ t)) uc) in
    stripped to_ascii_uppercase _
    ∙ ap (λ t. to_ascii_uppercase (replacen b'_' b':' t 2)) lowered
    ∙ ap to_ascii_uppercase parted
    ∙ raised

module _ (to_lowercase to_uppercase : Text → Text)
    (lower : (s : Text) → IsAscii s → to_lowercase s ≡ to_ascii_lowercase s)
    (upper : (s : Text) → IsAscii s → to_uppercase s ≡ to_ascii_uppercase s) where
  -- In ASCII only the cases of ASCII matter.
  ascii_only :
      (s : Text)
      → IsAscii s
      → device_to_target to_uppercase (target_to_device to_lowercase s)
        ≡ device_to_target to_ascii_uppercase (target_to_device to_ascii_lowercase s)
  unfolding target_to_device
  ascii_only s a =
      let replaced = IsAscii-replace s a in
      let lowered = IsAscii-to_ascii_lowercase (replace b':' b'_' s) replaced in
      ap (λ t. device_to_target to_uppercase (codes "ab_" ++ t))
        (lower (replace b':' b'_' s) replaced)
      ∙ stripped to_uppercase (to_ascii_lowercase (replace b':' b'_' s))
      ∙ upper (replacen b'_' b':' (to_ascii_lowercase (replace b':' b'_' s)) 2)
          (IsAscii-replacen (to_ascii_lowercase (replace b':' b'_' s)) 2 lowered)
      ∙ sym (stripped to_ascii_uppercase (to_ascii_lowercase (replace b':' b'_' s)))

  -- Where the lower and the upper case of Unicode are those of ASCII on texts in ASCII, a target in
  -- ASCII and in capitals, of three parts of which the first two have neither `:` nor `_` and the last
  -- has no `:`, is the target that its device's name stands for.
  pub device_to_target-target_to_device :
      (a b c : Text)
      → IsAscii a
      → IsAscii b
      → IsAscii c
      → Free b':' a
      → Free b'_' a
      → Free b':' b
      → Free b'_' b
      → Free b':' c
      → IsUpper a
      → IsUpper b
      → IsUpper c
      → device_to_target to_uppercase
          (target_to_device to_lowercase (a ++ (b':' ∷ (b ++ (b':' ∷ c)))))
        ≡ a ++ (b':' ∷ (b ++ (b':' ∷ c)))
  unfolding IsAscii
  device_to_target-target_to_device a b c la lb lc a1 a2 b1 b2 c1 ua ub uc =
      ascii_only (a ++ (b':' ∷ (b ++ (b':' ∷ c)))) (
        IsAscii-append a (b':' ∷ (b ++ (b':' ∷ c))) la
          (ground arith, IsAscii-append b (b':' ∷ c) lb (ground arith, lc)))
      ∙ ascii_again a b c a1 a2 b1 b2 c1 ua ub uc
