-- ===== src/Text/Laws.antt =====
-- Laws of the texts' functions.
use qrmi.Prelude.{
  drop, ℕ, zero, suc, ◌-◌, ◌≡◌, ◌≢◌, refl, ap, ◌∙◌, List, [], ◌∷◌, ◌++◌, true, arith, Bool-cases,
  inl, inr, length, ◌==◌, is_empty, false,
}
use qrmi.Text.{
  Text, starts_with, pieces, split, join, trim_end, ends_with, without_last, is_whitespace,
}

pub starts_with-drop : (p s : Text) → starts_with p s ≡ true → p ++ drop (length p) s ≡ s
unfolding starts_with
starts_with-drop [] s h = refl
starts_with-drop (x ∷ p) [] h = cc
starts_with-drop (x ∷ p) (c ∷ s) h = ground (arith, starts_with-drop p s)

-- There is always a first piece.
pub pieces_cons :
    (sep : Text) (k : ℕ) (s : Text) → (p : Text) × (ps : List Text) × (pieces sep k s ≡ p ∷ ps)
unfolding pieces
pieces_cons sep k [] = ([], [], refl)
pieces_cons sep (suc k) (c ∷ s) = pieces_cons sep k s
pieces_cons sep zero (c ∷ s) = elim (Bool-cases (starts_with sep (c ∷ s))) [
  | inl h ↦ ([], pieces sep (length sep - 1) s, rw h)
  | inr h ↦ let (p, ps, e) = pieces_cons sep zero s in (c ∷ p, ps, rw (h, e))
]

join_cons :
    (sep : Text) (c : ℕ) (p : Text) (ps : List Text)
    → join sep ((c ∷ p) ∷ ps) ≡ c ∷ join sep (p ∷ ps)
unfolding join
join_cons sep c p [] = refl
join_cons sep c p (q ∷ ps) = refl

join_two : (sep p : Text) (ps : List Text) → join sep ([] ∷ p ∷ ps) ≡ sep ++ join sep (p ∷ ps)
unfolding join
join_two sep p ps = refl

join-pieces :
    (x : ℕ) (sep : Text) (k : ℕ) (s : Text) → join (x ∷ sep) (pieces (x ∷ sep) k s) ≡ drop k s
unfolding pieces
join-pieces x sep zero [] = unfold join in refl
join-pieces x sep (suc k) [] = unfold join in refl
join-pieces x sep (suc k) (c ∷ s) = join-pieces x sep k s
join-pieces x sep zero (c ∷ s) = elim (Bool-cases (starts_with (x ∷ sep) (c ∷ s))) [
  | inl h ↦
      let (p, ps, e) = pieces_cons (x ∷ sep) (length sep) s in
      let rest = rw e at (join-pieces x sep (length sep) s) in
      let one : suc (length sep) - 1 ≡ length sep = omega arith in
      rw (h, one, e)
        (join_two (x ∷ sep) p ps
          ∙ ap (λ t. (x ∷ sep) ++ t) rest
          ∙ starts_with-drop (x ∷ sep) (c ∷ s) h)
  | inr h ↦
      let (p, ps, e) = pieces_cons (x ∷ sep) zero s in
      rw (h, e) (join_cons (x ∷ sep) c p ps ∙ ap (◌∷◌ c) (rw e at (join-pieces x sep zero s)))
]

-- What was split at a separator that is not empty is joined by it to the text again.
pub join-split : (sep s : Text) → sep ≢ [] → join sep (split sep s) ≡ s
unfolding split
join-split [] s h = absurd (h refl)
join-split (x ∷ sep) s h = join-pieces x sep 0 s

-- No char of the text is `x`.
abbrev pub Free : ℕ → Text → Type 0
Free x [] = Unit
Free x (c ∷ s) = ((c == x) ≡ false) × Free x s

pub Free-append : (x : ℕ) (s t : Text) → Free x s → Free x t → Free x (s ++ t)
Free-append x [] t f g = g
Free-append x (c ∷ s) t (n, f) g = (n, Free-append x s t f g)

-- A line ends at the first newline.
pub pieces-line :
    (x : ℕ) (s rest : Text)
    → Free x s
    → pieces (x ∷ []) 0 (s ++ (x ∷ rest)) ≡ s ∷ pieces (x ∷ []) 0 rest
unfolding pieces starts_with
pieces-line x [] rest f = ground arith
pieces-line x (c ∷ s) rest (n, f) =
    let e : (x == c) ≡ false = ground arith in rw (e, pieces-line x s rest f)

is_empty-concat : (s : Text) (d : ℕ) → is_empty (s ++ d ∷ []) ≡ false
is_empty-concat [] d = refl
is_empty-concat (c ∷ s) d = refl

pub trim_end-concat :
    (s : Text) (d : ℕ) → is_whitespace d ≡ false → trim_end (s ++ d ∷ []) ≡ s ++ d ∷ []
unfolding trim_end
trim_end-concat [] d h = rw h
trim_end-concat (c ∷ s) d h = rw (trim_end-concat s d h, is_empty-concat s d)

pub ends_with-concat : (x : ℕ) (s : Text) (d : ℕ) → ends_with x (s ++ d ∷ []) ≡ (d == x)
unfolding ends_with
ends_with-concat x [] d = refl
ends_with-concat x (c ∷ s) d = rw (is_empty-concat s d, ends_with-concat x s d)

pub without_last-concat : (s : Text) (d : ℕ) → without_last (s ++ d ∷ []) ≡ s
unfolding without_last
without_last-concat [] d = refl
without_last-concat (c ∷ s) d = rw (is_empty-concat s d, without_last-concat s d)

pub ends_with-Free : (x : ℕ) (s : Text) → Free x s → ends_with x s ≡ false
unfolding ends_with
ends_with-Free x [] f = refl
ends_with-Free x (c ∷ []) (n, f) = n
ends_with-Free x (c ∷ d ∷ s) (n, f) = ends_with-Free x (d ∷ s) f
