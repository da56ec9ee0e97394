-- ===== src/Ibm/Filter/Written.antt =====
-- What each key of a filter string sets (src/ibm/*_provider/provider_filter.rs).
use qrmi.Prelude.{ℕ, ◌≡◌, refl, ap, ◌∙◌, true, false, Option, some, [], ◌∷◌, ◌++◌, arith}
use qrmi.Text.{trim, Text, codes, pieces, split, starts_with, split_once, eq_text, parse_u64}
use qrmi.Text.Laws.{Free}
use qrmi.Result.{Result, ok, ◌>>=◌}
use qrmi.Ibm.Filter.{
  BackendFilter, online, parse_trimmed, parse_pairs, parse_from, set_key, parse_bool, parse_status,
}
use qrmi.Ibm.Filter.Meaning.{parse_from-append}

pieces-Free : (x : ℕ) (s : Text) → Free x s → pieces (x ∷ []) 0 s ≡ s ∷ []
unfolding pieces starts_with
pieces-Free x [] f = refl
pieces-Free x (c ∷ s) (n, f) = ground (arith, n, pieces-Free x s f)

module _ {Pattern : Type 0} (new : Text → Result Text Pattern) (width : Text → Option ℕ) where
  -- A pair, and what it does to a filter.
  pub data Sets : Text → (BackendFilter Pattern → BackendFilter Pattern) → Type 0 where
    num_qubits :
        (value : Text) (n : ℕ)
        → width (trim value) ≡ some n
        → Sets (codes "num_qubits=" ++ value) (λ f. record f { num_qubits = some n })
    max_shots :
        (value : Text) (n : ℕ)
        → parse_u64 (trim value) ≡ some n
        → Sets (codes "max_shots=" ++ value) (λ f. record f { max_shots = some n })
    name :
        (value : Text) (p : Pattern)
        → new (trim value) ≡ ok p
        → Sets (codes "name=" ++ value) (λ f. record f { name_pattern = some p })
    simulator : Sets (codes "is_simulator=true") (λ f. record f { is_simulator = true })
    device : Sets (codes "is_simulator=false") (λ f. record f { is_simulator = false })
    is_online : Sets (codes "status=online") (λ f. record f { status = online })

  Sets-parse_trimmed :
      {s : Text} {e : BackendFilter Pattern → BackendFilter Pattern} (f : BackendFilter Pattern)
      → Sets s e
      → parse_trimmed new width f s ≡ ok (e f)
  unfolding set_key split_once eq_text trim parse_bool parse_status
  Sets-parse_trimmed f (num_qubits value n h) = rw h
  Sets-parse_trimmed f (max_shots value n h) = rw h
  Sets-parse_trimmed f (name value p h) = rw h
  Sets-parse_trimmed f simulator = refl
  Sets-parse_trimmed f device = refl
  Sets-parse_trimmed f is_online = refl

  -- Pairs joined by `&`, without white space at their ends, and what they do one after the other.
  pub data Written : Text → (BackendFilter Pattern → BackendFilter Pattern) → Type 0 where
    last_pair :
        (s : Text) (e : BackendFilter Pattern → BackendFilter Pattern)
        → Sets s e
        → Free b'&' s
        → trim s ≡ s
        → Written s e
    then_pair :
        (s : Text) (e : BackendFilter Pattern → BackendFilter Pattern) (rest : Text)
        (e' : BackendFilter Pattern → BackendFilter Pattern)
        → Sets s e
        → Free b'&' s
        → trim s ≡ s
        → Written rest e'
        → Written (s ++ (b'&' ∷ rest)) (λ f. e' (e f))

  parse_from-Sets :
      (s : Text) (e : BackendFilter Pattern → BackendFilter Pattern) (f : BackendFilter Pattern)
      → Sets s e
      → Free b'&' s
      → trim s ≡ s
      → parse_from new width f s ≡ ok (e f)
  unfolding parse_from parse_pairs split
  parse_from-Sets s e f sets free trimmed =
      rw (pieces-Free b'&' s free, trimmed, Sets-parse_trimmed f sets) refl

  -- A filter string of pairs with valid values sets, pair by pair, the number of qubits for
  -- `num_qubits`, that of shots for `max_shots`, the pattern for `name`, whether a simulator is asked
  -- for for `is_simulator`, and that it is to be online for `status=online`, and nothing else, so that
  -- of the pairs with one key the last counts.
  pub parse_from-Written :
      {s : Text} {e : BackendFilter Pattern → BackendFilter Pattern}
      → Written s e
      → (f : BackendFilter Pattern) → parse_from new width f s ≡ ok (e f)
  parse_from-Written (last_pair s e sets free trimmed) f = parse_from-Sets s e f sets free trimmed
  parse_from-Written (then_pair s e rest e' sets free trimmed w) f =
      parse_from-append new width s rest f
      ∙ ap (λ r. r >>= λ g. parse_from new width g rest) (parse_from-Sets s e f sets free trimmed)
      ∙ parse_from-Written w (e f)
