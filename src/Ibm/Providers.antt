-- ===== src/Ibm/Providers.antt =====
-- What the three providers of IBM share (src/ibm/*_provider/mod.rs): the map of settings that each
-- keeps, the environment of the process that it changes, and the requests that it joins.
pub mod Environment
pub mod Compute
pub mod System
pub mod Factory
use qrmi.Prelude.{
  Option, none, some, List, [], ◌∷◌, ◌++◌, if◌then◌else◌, String, or_option, map, ◌≡◌, refl, ap,
}
use qrmi.Text.{Text, codes, eq_text}
use qrmi.Result.{Result, ok_or}
use qrmi.Errors.{QrmiError}
use qrmi.Settings.{Env}

-- The entries of a `HashMap<String, String>`, in any order. Of entries with one key, which a map has
-- not, the first counts.
abbrev pub Environment : Type 0
Environment = List (Text × Text)

unfoldable pub value_of : Environment → Text → Option Text
unfolding eq_text
value_of [] key = none
value_of ((k, v) ∷ rest) key = if eq_text k key then some v else value_of rest key

-- The closure `get` of each `new`.
unfoldable pub get : Environment → String → Result QrmiError Text
unfolding value_of
get environment key =
    ok_or (value_of environment (codes key)) (QrmiError.missing_config_key (codes key))

-- `std::env::set_var`, on a name and a value that it takes: the name is not empty and has no `=`,
-- and neither has a NUL.
unfoldable pub set_var : Text → Text → Env → Env
unfolding eq_text
set_var name value env key = if eq_text name key then some value else env key

-- `inject_backend_env`.
unfoldable pub inject_backend_env : Text → Environment → Env → Env
unfolding set_var
inject_backend_env backend_name [] env = env
inject_backend_env backend_name ((key, value) ∷ rest) env =
    set_var (backend_name ++ (codes "_" ++ key)) value (inject_backend_env backend_name rest env)

-- `futures::future::join_all`, where each request is answered before the next one is sent: the
-- results stand in the order of the requests.
module _ {V A B : Type 0} (request : A → V → B × V) where
  unfoldable pub join_all : List A → V → List B × V
  join_all [] v = ([], v)
  join_all (a ∷ rest) v =
      let (b, v1) = request a v in let (bs, v2) = join_all rest v1 in (b ∷ bs, v2)

  -- Requests whose answer does not depend on the world.
  pub join_all-map :
      (answer : A → B)
      → ((a : A) (v : V) → (request a v).0 ≡ answer a)
      → (requests : List A) (v : V) → (join_all requests v).0 ≡ map answer requests
  unfolding join_all
  join_all-map answer steady [] v = refl
  join_all-map answer steady (a ∷ rest) v =
      rw (steady a v) (ap (◌∷◌ (answer a)) (join_all-map answer steady rest (request a v).1))

-- `Iterator::zip`.
abbrev pub zip {ℓ κ} : {A : Type ℓ} {B : Type κ} → List A → List B → List (A × B)
zip [] bs = []
zip (a ∷ more) [] = []
zip (a ∷ more) (b ∷ others) = (a, b) ∷ zip more others

pub zip-map {ℓ κ} :
    {A : Type ℓ} {B : Type κ} (f : A → B) (xs : List A) → zip xs (map f xs) ≡ map (λ x. (x, f x)) xs
zip-map f [] = refl
zip-map f (x ∷ xs) = ap (◌∷◌ (x, f x)) (zip-map f xs)
