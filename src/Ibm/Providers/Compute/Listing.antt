-- ===== src/Ibm/Providers/Compute/Listing.antt =====
-- What `resources` and `least_busy` return (src/ibm/qiskit_runtime_service_provider/mod.rs and
-- src/ibm/quantum_compute_service_provider/mod.rs).
use qrmi.Prelude.{
  ◌≡◌, refl, sym, ap, ◌∙◌, Option, List, [], ◌∷◌, Bool, true, false, ◌&&◌, map, Bool-cases, inl,
  inr,
}
use qrmi.Prelude.Sort.{
  filter, filter-filter, filter_comm, sort_by_key, IsSorted, sort_by_key-IsSorted,
  sort_by_key-stable, sort_by_key-map, filter-IsSorted, eq_ℤ,
}
use qrmi.Prelude.Int.{ℤ}
use qrmi.Text.{Text}
use qrmi.Result.{Result, ok}
use qrmi.Settings.{Env}
use qrmi.Ibm.Api.{Api, ApiError, Configuration, Device}
use qrmi.Ibm.Filter.{
  BackendFilter, BackendConfiguration, matches_name, matches_device, needs_status_check,
}
use qrmi.Ibm.Compute.State.{Service}
use qrmi.Ibm.Compute.Tasks.{Product}
use qrmi.Ibm.Providers.{inject_backend_env, join_all-map, zip, zip-map}
use qrmi.Ibm.Providers.Compute.{
  Provider, counts_as_online, is_backend_online, answered, status_filter, listed, accepted,
  construct, fetch_configs, constructed,
}
use qrmi.Ibm.Providers.Compute.Settings.{HasSettings, IsServiceOf, from_opt-inject}

-- One service for each device, in this order, with the provider's settings.
abbrev pub Built : Provider → List Service → List Device → Type 0
Built self [] [] = Unit
Built self (s ∷ services) (d ∷ devices) = IsServiceOf self d.name s × Built self services devices
Built self [] (d ∷ devices) = ⊥
Built self (s ∷ services) [] = ⊥

module _ {V Value Params Document Pattern : Type 0} (api : Api V Value Params Document)
    (glob : Text → Result Text Pattern) (matches : Pattern → Text → Bool)
    (read : Document → Option BackendConfiguration) (status : Text → Result ApiError (Option Text))
    (document : Text → Result ApiError Document) where
  -- What the services say of a backend does not change while the list is made.
  pub record IsSteady (config : Configuration) : Type 0 where
    pub statuses : (name : Text) (v : V) → (api.get_backend_status config name v).0 ≡ status name
    pub documents :
        (name : Text) (v : V) → (api.get_backend_configuration config name v).0 ≡ document name

  abbrev pub up_if : Bool → Device → Bool
  up_if true d = counts_as_online (status d.name)
  up_if false d = true

  -- The filter asks for no status, or the device is online.
  abbrev pub is_up : BackendFilter Pattern → Device → Bool
  is_up f = up_if (needs_status_check f)

  abbrev pub is_accepted : BackendFilter Pattern → Device → Bool
  is_accepted f d = accepted read f (document d.name)

  -- A device that the filter asks for.
  abbrev pub qualifies : BackendFilter Pattern → Device → Bool
  qualifies f d =
      ((matches_device f d.is_simulator && matches_name matches f d.name) && is_up f d)
      && is_accepted f d

  -- The services stand for the devices that qualify, the shortest queue first; those of one queue
  -- length stand as in the listing.
  pub record IsListing (self : Provider) (f : BackendFilter Pattern) (devices : List Device)
      (services : List Service) : Type 0 where
    pub chosen : List Device
    pub built : Built self services chosen
    pub by_queue : IsSorted (λ (d : Device). d.queue_length) chosen
    pub complete :
        (k : ℤ)
        → filter (λ d. eq_ℤ d.queue_length k) chosen
          ≡ filter (λ d. eq_ℤ d.queue_length k) (filter (qualifies f) devices)

  all_kept : (xs : List Device) → filter (up_if false) xs ≡ xs
  all_kept [] = refl
  all_kept (x ∷ xs) = ap (◌∷◌ x) (all_kept xs)

  answered-map :
      (g : Device → Bool) (xs : List Device) → answered (map (λ d. (d, g d)) xs) ≡ filter g xs
  answered-map g [] = refl
  answered-map g (x ∷ xs) = rw (answered-map g xs)

  module _ (config : Configuration) (steady : IsSteady config) (f : BackendFilter Pattern) where
    online-map :
        (d : Device) (v : V)
        → (is_backend_online api glob matches read config d v).0 ≡ counts_as_online (status d.name)
    unfolding is_backend_online
    online-map d v = ap (counts_as_online) (steady.statuses d.name v)

    status_filter_lem :
        (ds : List Device) (v : V)
        → (status_filter api glob matches read f config ds v).0 ≡ filter (is_up f) ds
    unfolding status_filter
    status_filter_lem ds v = elim (Bool-cases (needs_status_check f)) [
      | inr e ↦ rw e (sym (all_kept ds))
      | inl e ↦ rw e (
          ap (λ (bs : List Bool). answered (zip ds bs))
            (join_all-map (is_backend_online api glob matches read config)
              (λ d. counts_as_online (status d.name)) online-map ds v)
          ∙ ap answered (zip-map (λ (d : Device). counts_as_online (status d.name)) ds)
          ∙ answered-map (λ d. counts_as_online (status d.name)) ds)
    ]

    fetch_configs_lem :
        (o : List Device × V)
        → (fetch_configs api glob matches read config o).0
          ≡ map
              (λ (d : Device). (d, document d.name))
              (sort_by_key (λ (d : Device). d.queue_length) o.0)
    fetch_configs_lem (ds, v) =
        ap
          (λ (cs : List (Result ApiError Document)).
            sort_by_key (λ (p : Device × Result ApiError Document). p.0.queue_length) (zip ds cs))
          (join_all-map (λ (d : Device). api.get_backend_configuration config d.name)
            (λ (d : Device). document d.name) (λ d. steady.documents d.name) ds v)
        ∙ ap (sort_by_key (λ (p : Device × Result ApiError Document). p.0.queue_length))
            (zip-map (λ (d : Device). document d.name) ds)
        ∙ sort_by_key-map (λ (d : Device). d.queue_length) (λ (d : Device). document d.name) ds

  module _ (product : Product) (self : Provider) (h : HasSettings product self)
      (f : BackendFilter Pattern) where
    construct-Built :
        (ds : List Device) (env : Env)
        → Built self
            (construct read product self.provider_env f
              (map (λ (d : Device). (d, document d.name)) ds)
              env).0
            (filter (is_accepted f) ds)
    unfolding construct
    construct-Built [] env = tt
    construct-Built (d ∷ ds) env = elim (Bool-cases (is_accepted f d)) [
      | inr e ↦ rw e (construct-Built ds env)
      | inl e ↦
          let (s, made, good) = from_opt-inject self d.name env product h in
          rw (e, made) (good, construct-Built ds (inject_backend_env d.name self.provider_env env))
    ]

  module _ (product : Product) (self : Provider) (h : HasSettings product self)
      (f : BackendFilter Pattern) (config : Configuration) (steady : IsSteady config) where
    chosen_of : List Device → List Device
    chosen_of devices =
        filter (is_accepted f) (
          sort_by_key (λ (d : Device). d.queue_length)
            (filter (is_up f) (listed matches f devices)))

    chosen_of_complete :
        (devices : List Device) (k : ℤ)
        → filter (λ d. eq_ℤ d.queue_length k) (chosen_of devices)
          ≡ filter (λ d. eq_ℤ d.queue_length k) (filter (qualifies f) devices)
    unfolding chosen_of
    chosen_of_complete devices k =
        let up = filter (is_up f) (listed matches f devices) in
        filter_comm (λ d. eq_ℤ d.queue_length k) (is_accepted f)
          (sort_by_key (λ (d : Device). d.queue_length) up)
        ∙ ap (filter (is_accepted f)) (sort_by_key-stable (λ (d : Device). d.queue_length) k up)
        ∙ filter_comm (is_accepted f) (λ d. eq_ℤ d.queue_length k) up
        ∙ ap (filter (λ d. eq_ℤ d.queue_length k)) (
            ap (λ (ds : List Device). filter (is_accepted f) (filter (is_up f) ds))
              (filter-filter (λ d. matches_name matches f d.name)
                (λ d. matches_device f d.is_simulator) devices)
            ∙ ap (filter (is_accepted f)) (
                filter-filter (is_up f)
                  (λ d. matches_device f d.is_simulator && matches_name matches f d.name) devices)
            ∙ filter-filter (is_accepted f)
                (λ d.
                  (matches_device f d.is_simulator && matches_name matches f d.name) && is_up f d)
                devices)

    pub constructed-IsListing :
        (devices : List Device) (env : Env) (v : V)
        → (services : List Service) × (s : Env × V) × (constructed api glob matches read product
              self f env
              (fetch_configs api glob matches read config
                (status_filter api glob matches read f config (listed matches f devices) v))
            ≡ (ok services, s))
          × IsListing self f devices services
    unfolding chosen_of
    constructed-IsListing devices env v =
        let o = status_filter api glob matches read f config (listed matches f devices) v in
        let c = fetch_configs api glob matches read config o in
        let (services, env') = construct read product self.provider_env f c.0 env in
        let up = filter (is_up f) (listed matches f devices) in
        let queued = sort_by_key (λ (d : Device). d.queue_length) up in
        let e : c.0 ≡ map (λ (d : Device). (d, document d.name)) queued =
          fetch_configs_lem config steady f o
          ∙ ap
              (λ (ds : List Device).
                map (λ (d : Device). (d, document d.name))
                  (sort_by_key (λ (d : Device). d.queue_length) ds))
              (status_filter_lem config steady f (listed matches f devices) v) in
        (
          services,
          (env', c.1),
          refl,
          record {
            chosen = chosen_of devices;
            built = rw e (construct-Built product self h f queued env);
            by_queue =
                filter-IsSorted (λ (d : Device). d.queue_length) (is_accepted f) queued
                  (sort_by_key-IsSorted (λ (d : Device). d.queue_length) up);
            complete = chosen_of_complete devices;
          },
        )
