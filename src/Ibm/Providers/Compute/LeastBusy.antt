-- ===== src/Ibm/Providers/Compute/LeastBusy.antt =====
-- The results of `resources` and of `least_busy` (src/ibm/qiskit_runtime_service_provider/mod.rs,
-- src/ibm/quantum_compute_service_provider/mod.rs, src/resource_provider.rs).
use qrmi.Prelude.{
  refl, Bool, All, Among, All-Among, sym, arith, ◌≡◌, Option, some, none, List, [], unwrap_or, ◌∷◌,
}
use qrmi.Prelude.Sort.{filter, IsLeast, IsSorted, eq_ℤ, ◌≤ℤ◌, All-same_by_key}
use qrmi.Prelude.Int.{ℤ}
use qrmi.Text.{Text, codes}
use qrmi.Result.{Result, ok}
use qrmi.Settings.{Env}
use qrmi.Ibm.Api.{Api, ApiError, Device}
use qrmi.Ibm.Filter.{BackendFilter, BackendConfiguration}
use qrmi.Ibm.Compute.State.{Service, Token, check_token}
use qrmi.Ibm.Compute.Tasks.{Product}
use qrmi.Ibm.Providers.{Environment}
use qrmi.Ibm.Providers.Compute.{
  Provider, new, with_bearer, no_token, parse, resources, least_busy, first,
}
use qrmi.Ibm.Providers.Compute.Settings.{new-HasSettings, IsServiceOf}
use qrmi.Ibm.Providers.Compute.Listing.{
  IsSteady, IsListing, constructed-IsListing, Built, qualifies,
}

-- What `least_busy` promises: no device qualifies, or the service is that of one which qualifies,
-- and none that does has a shorter queue.
abbrev pub LeastBusy : (Device → Bool) → Provider → List Device → Option Service → Type 0
LeastBusy q self devices none = filter q devices ≡ []
LeastBusy q self devices (some s) =
    (d : Device) × Among d (filter q devices)
    × IsServiceOf self d.name s
    × IsLeast (λ (d : Device). d.queue_length) d (filter q devices)

none-filter : {A : Type 0} (xs : List A) → All (λ x. ⊥) xs → xs ≡ []
none-filter [] h = refl
none-filter (x ∷ xs) (h, hs) = absurd h

module _ (q : Device → Bool) (self : Provider) (devices : List Device) where
  first_lem :
      (services : List Service) (chosen : List Device)
      → Built self services chosen
      → IsSorted (λ (d : Device). d.queue_length) chosen
      → ((k : ℤ)
          → filter (λ d. eq_ℤ d.queue_length k) chosen
            ≡ filter (λ d. eq_ℤ d.queue_length k) (filter q devices))
      → LeastBusy q self devices (first services)
  first_lem [] [] b sorted same =
      none-filter (filter q devices)
        (All-same_by_key (λ (d : Device). d.queue_length) (λ d. ⊥) [] (filter q devices) same tt)
  first_lem [] (d ∷ ds) b sorted same = absurd b
  first_lem (s ∷ services) [] b sorted same = absurd b
  first_lem (s ∷ services) (d ∷ ds) (good, b) (least, sorted) same =
      let stands =
        All-same_by_key (λ (d : Device). d.queue_length) (λ x. Among x (filter q devices))
          (filter q devices) (d ∷ ds) (λ k. sym (same k)) (All-Among (filter q devices)) in
      (
        d,
        stands.0,
        good,
        All-same_by_key (λ (d : Device). d.queue_length) (λ x. d.queue_length ≤ℤ x.queue_length)
            (d ∷ ds) (filter q devices) same (omega arith, least),
      )

module _ {V Value Params Document Pattern : Type 0} (api : Api V Value Params Document)
    (glob : Text → Result Text Pattern) (matches : Pattern → Text → Bool)
    (read : Document → Option BackendConfiguration) (product : Product) (self : Provider)
    (filters : Option Text) (env : Env) (v : V) where
  -- The filter is read, a token is there and the backends are listed; and what the services say of
  -- each does not change while the list is made.
  pub record IsAnswered (status : Text → Result ApiError (Option Text))
      (document : Text → Result ApiError Document) (f : BackendFilter Pattern)
      (devices : Option (List Device)) : Type 0 where
    pub environment : Environment
    pub provider : new product environment ≡ ok self
    pub parsed : parse api glob matches read product (unwrap_or filters []) ≡ ok f
    pub token : Token
    pub before : V
    pub renewed :
        check_token api self.api_key self.iam_endpoint (no_token, v) ≡ (ok tt, (token, before))
    pub after : V
    pub listing :
        api.list_backends (with_bearer self token) (some (codes "2025-01-01")) before
        ≡ (ok devices, after)
    pub steady : IsSteady api glob matches read status document (with_bearer self token)

  module _ (status : Text → Result ApiError (Option Text))
      (document : Text → Result ApiError Document) (f : BackendFilter Pattern)
      (devices : Option (List Device)) (h : IsAnswered status document f devices) where
    -- `resources` of a provider that `new` has built, once the filter is read, a token fetched and the
    -- backends listed: it returns a service for each backend that the filter asks for and no other, by
    -- rising queue length, those of one length in the order of the list; each service has the
    -- provider's settings under its backend's name, so that none is left out for want of a setting.
    pub resources-IsListing :
        (services : List Service) × (s : Env × V) × (resources api glob matches read product self
            filters
            (env, v)
          ≡ (ok services, s))
        × IsListing api glob matches read status document self f (unwrap_or devices []) services
    unfolding resources
    resources-IsListing =
        rw (h.parsed, h.renewed, h.listing)
          (constructed-IsListing api glob matches read status document product self
            (new-HasSettings product h.environment self h.provider) f (with_bearer self h.token)
            h.steady (unwrap_or devices []) env h.after)

    first-LeastBusy :
        (services : List Service)
        → IsListing api glob matches read status document self f (unwrap_or devices []) services
        → LeastBusy
            (qualifies api glob matches read status document f)
            self
            (unwrap_or devices [])
            (first services)
    first-LeastBusy services l =
        first_lem (qualifies api glob matches read status document f) self (unwrap_or devices [])
          services l.chosen l.built l.by_queue l.complete

    -- `least_busy` returns nothing exactly if the filter asks for no backend of the list, and else the
    -- service of a backend which the filter asks for, such that none that it asks for has a shorter queue.
    pub least_busy-LeastBusy :
        (o : Option Service) × (s : Env × V) × (least_busy api glob matches read product self
            filters
            (env, v)
          ≡ (ok o, s))
        × LeastBusy
            (qualifies api glob matches read status document f)
            self
            (unwrap_or devices [])
            o
    unfolding least_busy
    least_busy-LeastBusy =
        let (services, s, e, l) = resources-IsListing in
        (first services, s, rw e, first-LeastBusy services l)
