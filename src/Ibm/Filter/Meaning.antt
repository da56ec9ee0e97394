-- ===== src/Ibm/Filter/Meaning.antt =====
-- What a filter string selects (src/ibm/*_provider/provider_filter.rs).
use qrmi.Prelude.{
  ℕ, ◌≤◌, ◌≡◌, refl, ap, ◌∙◌, ◌↔◌, true, Option, none, some, List, [], ◌∷◌, ◌++◌, arith, Bool-cases,
  inl, inr, ◌==◌,
}
use qrmi.Text.{trim, Text, codes, split, pieces, starts_with}
use qrmi.Text.Laws.{pieces_cons}
use qrmi.Result.{Result-cases, Result, ◌>>=◌}
use qrmi.Ibm.Filter.{
  BackendFilter, BackendConfiguration, matches_config, parse_trimmed, parse_pairs, parse_from,
}

abbrev pub AtLeast : Option ℕ → ℕ → Type 0
AtLeast none n = Unit
AtLeast (some min) n = min ≤ n

-- A configuration is selected exactly if it is of the kind asked for, simulator or not, and has at
-- least as many qubits and shots as asked for, where a number is asked for.
matches_config_iff :
    {Pattern : Type 0} (f : BackendFilter Pattern) (config : BackendConfiguration)
    → (matches_config f config ≡ true) ↔ (
        (config.simulator ≡ f.is_simulator)
        × AtLeast f.num_qubits config.n_qubits
        × AtLeast f.max_shots config.max_shots)
unfolding matches_config
matches_config_iff f config = ground arith

-- Splitting two texts with the separator char between them.
pieces-append :
    (x : ℕ) (s t : Text)
    → pieces (x ∷ []) 0 (s ++ (x ∷ t)) ≡ pieces (x ∷ []) 0 s ++ pieces (x ∷ []) 0 t
unfolding pieces starts_with
pieces-append x [] t = ground arith
pieces-append x (c ∷ s) t = elim (Bool-cases (x == c)) [
  | inl e ↦ rw e (ap (◌∷◌ []) (pieces-append x s t))
  | inr n ↦ let (p, ps, e) = pieces_cons (x ∷ []) 0 s in rw (n, pieces-append x s t, e)
]

module _ {Pattern : Type 0} (new : Text → Result Text Pattern) (width : Text → Option ℕ) where
  parse_pairs-append :
      (ps qs : List Text) (f : BackendFilter Pattern)
      → parse_pairs new width f (ps ++ qs)
        ≡ (parse_pairs new width f ps >>= λ g. parse_pairs new width g qs)
  unfolding parse_pairs
  parse_pairs-append [] qs f = refl
  parse_pairs-append (p ∷ ps) qs f = elim (Result-cases (parse_trimmed new width f (trim p))) [
    | inl (g, e) ↦ rw e (parse_pairs-append ps qs g)
    | inr (x, e) ↦ rw e
  ]

  -- Of two filter strings joined by `&` the first is read, then the second on top of it.
  pub parse_from-append :
      (s t : Text) (f : BackendFilter Pattern)
      → parse_from new width f (s ++ (b'&' ∷ t))
        ≡ (parse_from new width f s >>= λ g. parse_from new width g t)
  unfolding parse_from
  parse_from-append s t f =
      ap (parse_pairs new width f) (pieces-append b'&' s t)
      ∙ parse_pairs-append (split (codes "&") s) (split (codes "&") t) f
