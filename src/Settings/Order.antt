-- ===== src/Settings/Order.antt =====
-- The order of several names for one setting (src/common/config.rs).
use qrmi.Prelude.{
  ◌≡◌, refl, ◌≢◌, Option, none, some, List, [], ◌∷◌, Bool-cases, inl, inr, or_option, ap,
  Option-cases,
}
use qrmi.Text.{Text, codes, eq_text, eq_text_iff, join}
use qrmi.Result.{Result, ok, err}
use qrmi.Errors.{QrmiError}
use qrmi.Settings.{
  Env, Config, resolve_opt, not_found_error, dedup, find_setting, resolve_opt_required_any,
}

-- The list that `dedup` returns begins as its argument does.
dedup-head : (k : Text) (ks : List Text) → (rest : List Text) × (dedup (k ∷ ks) ≡ k ∷ rest)
unfolding dedup
dedup-head k [] = ([], refl)
dedup-head k (j ∷ ks) = elim (Bool-cases (eq_text k j)) [
  | inl same ↦ let (rest, e) = dedup-head j ks in (rest, rw (same, e))
  | inr new ↦ (dedup (j ∷ ks), rw new)
]

or_option_idem {ℓ} : {A : Type ℓ} (o p : Option A) → or_option o (or_option o p) ≡ or_option o p
or_option_idem none p = refl
or_option_idem (some a) p = refl

module _ (env : Env) (config : Option Config) where
  find_setting-dedup :
      (ks : List Text) → find_setting env config (dedup ks) ≡ find_setting env config ks
  unfolding dedup find_setting
  find_setting-dedup [] = refl
  find_setting-dedup (k ∷ []) = refl
  find_setting-dedup (k ∷ j ∷ ks) = elim (Bool-cases (eq_text k j)) [
    | inl same ↦
        let e : k ≡ j = (eq_text_iff k j).0 same in
        let (rest, d) = dedup-head j ks in
        let ih = find_setting-dedup (j ∷ ks) in rw (same, d) (rw e (rw or_option_idem (rw d at ih)))
    | inr new ↦ rw new (ap (or_option (resolve_opt env k config)) (find_setting-dedup (j ∷ ks)))
  ]

  -- What `find_map` promises of the names in order: those before the one that counts are not set.
  pub data FirstSet : List Text → Option Text → Type 0 where
    found :
        {k v : Text} {ks : List Text}
        → resolve_opt env k config ≡ some v
        → FirstSet (k ∷ ks) (some v)
    passed :
        {k : Text} {ks : List Text} {o : Option Text}
        → resolve_opt env k config ≡ none
        → FirstSet ks o
        → FirstSet (k ∷ ks) o
    missing : FirstSet [] none

  find_setting-FirstSet : (ks : List Text) → FirstSet ks (find_setting env config ks)
  unfolding find_setting
  find_setting-FirstSet [] = missing
  find_setting-FirstSet (k ∷ ks) = elim (Option-cases (resolve_opt env k config)) [
    | inl e ↦ rw e (passed e (find_setting-FirstSet ks))
    | inr (v, e) ↦ rw e (found e)
  ]

-- No two neighbours are equal.
abbrev pub Distinct : List Text → Type 0
Distinct [] = Unit
Distinct (k ∷ []) = Unit
Distinct (k ∷ j ∷ ks) = (k ≢ j) × Distinct (j ∷ ks)

-- The value of the first of `keys` that is set; without one, an error that names the keys, equal
-- neighbours once, and says which source was asked.
abbrev pub Chosen : Env → Option Config → List Text → Result QrmiError Text → Type 0
Chosen env config keys (ok v) = FirstSet env config keys (some v)
Chosen env config keys (err e) =
    FirstSet env config keys none
    × (e ≡ not_found_error (join (codes " or ") (dedup keys)) config)
    × Distinct (dedup keys)

dedup-Distinct : (ks : List Text) → Distinct (dedup ks)
unfolding dedup
dedup-Distinct [] = tt
dedup-Distinct (k ∷ []) = tt
dedup-Distinct (k ∷ j ∷ ks) =
    let (rest, d) = dedup-head j ks in
    let ih : Distinct (j ∷ rest) = rw d at (dedup-Distinct (j ∷ ks)) in
    elim (Bool-cases (eq_text k j)) [
      | inl same ↦ rw (same, d) (rw ((eq_text_iff k j).0 same) ih)
      | inr new ↦ rw (new, d) ((λ e. cc ((eq_text_iff k j).1 e)), ih)
    ]

-- `resolve_opt_required_any` returns the value of the first of the names that is set, each looked up
-- in the map if there is one and else in the environment. If none is set it fails, with an error
-- that tells the two sources apart and names all that was tried, no two neighbours equal.
resolve_opt_required_any-Chosen :
    (env : Env) (keys : List Text) (config : Option Config)
    → Chosen env config keys (resolve_opt_required_any env keys config)
unfolding resolve_opt_required_any
resolve_opt_required_any-Chosen env keys config =
    let searched = find_setting-FirstSet env config keys in
    rw (find_setting-dedup env config keys) (elim (Option-cases (find_setting env config keys)) [
      | inl e ↦ rw e (rw e at searched, refl, dedup-Distinct keys)
      | inr (v, e) ↦ rw e (rw e at searched)
    ])
