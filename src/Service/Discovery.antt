-- ===== src/Service/Discovery.antt =====
-- Which resources a service offers (src/service.rs).
use qrmi.Prelude.{
  ap, ◌∙◌, ◌≡◌, refl, sym, inl, inr, Bool, true, false, Option, none, some, List, [], ◌∷◌,
  Bool-cases, Option-cases, or_option, if◌then◌else◌,
}
use qrmi.Text.{Text, eq_text, eq_text_iff, trim}
use qrmi.Result.{Result, ok, err, Result-cases}
use qrmi.Exec.{◌>>=◌, return, continue}
use qrmi.Errors.{QrmiError}
use qrmi.Models.{ResourceType, ResourceStatus}
use qrmi.Models.Names.{from_qpu_type_str}
use qrmi.Settings.{Env}
use qrmi.JobEnv.{get_job_qpu_resources_and_types}
use qrmi.Resource.{QuantumResource}
use qrmi.Service.{
  Constructors, create_resource, is_online, ResourceMap, remove, insert, resource, added, admit,
  discover, new_service,
}

module _ {W : Type 0} (new : Constructors W) where
  -- A QPU of a known type, with the resource that was created for it and what its status said.
  pub record Entry : Type 0 where
    pub name : Text
    pub resource : QuantumResource W
    pub online : Bool

  -- The entries that the lists lead to, each created and asked for its status in turn.
  pub data Visited : List Text → List Text → W → List Entry → W → Type 0 where
    no_more : {qpu_types : List Text} {w : W} → Visited [] qpu_types w [] w
    no_types : {qpus : List Text} {w : W} → Visited qpus [] w [] w
    unknown :
        {qpu qpu_type : Text} {qpus qpu_types : List Text} {w w' : W} {entries : List Entry}
        → from_qpu_type_str qpu_type ≡ none
        → Visited qpus qpu_types w entries w'
        → Visited (qpu ∷ qpus) (qpu_type ∷ qpu_types) w entries w'
    known :
        {qpu qpu_type : Text} {qpus qpu_types : List Text} {w w1 w2 w' : W} {entries : List Entry}
        {t : ResourceType} {r : QuantumResource W} {s : ResourceStatus}
        → from_qpu_type_str qpu_type ≡ some t
        → create_resource new t (trim qpu) w ≡ (ok r, w1)
        → r.status w1 ≡ (ok s, w2)
        → Visited qpus qpu_types w2 entries w'
        → Visited
            (qpu ∷ qpus)
            (qpu_type ∷ qpu_types)
            w
            (record { name = trim qpu; resource = r; online = is_online s.status } ∷ entries)
            w'

  abbrev pub if_online : Bool → QuantumResource W → Option (QuantumResource W)
  if_online true r = some r
  if_online false r = none

  -- The resource of the last entry of this name that was online.
  abbrev pub last_online : Text → List Entry → Option (QuantumResource W)
  last_online name [] = none
  last_online name (e ∷ entries) =
      or_option (last_online name entries)
        (if eq_text e.name name then if_online e.online e.resource else none)

  resource-remove :
      (name other : Text) (m : ResourceMap new)
      → eq_text name other ≡ false
      → resource new (remove new name m) other ≡ resource new m other
  unfolding resource remove
  resource-remove name other [] n = refl
  resource-remove name other ((k, r) ∷ m) n = elim (Bool-cases (eq_text k name)) [
    | inr e ↦ rw e (rw (resource-remove name other m n))
    | inl e ↦
        let k_other = rw (← (eq_text_iff k name).0 e) at n in
        rw (e, k_other) (resource-remove name other m n)
  ]

  resource-added :
      (online : Bool) (name other : Text) (r : QuantumResource W) (m : ResourceMap new)
      → resource new (added new online name r m) other
        ≡ or_option (if eq_text name other then if_online online r else none) (resource new m other)
  unfolding insert resource
  resource-added false name other r m = elim (Bool-cases (eq_text name other)) [
    | inl e ↦ rw e
    | inr e ↦ rw e
  ]
  resource-added true name other r m = elim (Bool-cases (eq_text name other)) [
    | inl e ↦ rw e
    | inr e ↦ rw e (resource-remove name other m e)
  ]

  or_option_assoc :
      {A : Type 0} (a b c : Option A) → or_option (or_option a b) c ≡ or_option a (or_option b c)
  or_option_assoc none b c = refl
  or_option_assoc (some a) b c = refl

  nothing_before :
      (o : Option (QuantumResource W)) (name : Text) → or_option o (resource new [] name) ≡ o
  unfolding resource
  nothing_before none name = refl
  nothing_before (some r) name = refl

  -- What the loop over these lists has made of the map `m` and the world `w`.
  record Found (qpus qpu_types : List Text) (m : ResourceMap new) (w : W) (m' : ResourceMap new)
      (w' : W) : Type 0 where
    pub entries : List Entry
    pub visited : Visited qpus qpu_types w entries w'
    pub offered :
        (name : Text)
        → resource new m' name ≡ or_option (last_online name entries) (resource new m name)

  module _ (qpu qpu_type : Text) (qpus qpu_types : List Text) (m : ResourceMap new) (w : W)
      (m' : ResourceMap new) (w' : W)
      (rest : (more : ResourceMap new) (v : W)
        → discover new qpus qpu_types more v ≡ (ok m', w')
        → Found qpus qpu_types more v m' w')
      (t : ResourceType) (type_known : from_qpu_type_str qpu_type ≡ some t) where
    asked-Found :
        (r : QuantumResource W) (w1 : W)
        → create_resource new t (trim qpu) w ≡ (ok r, w1)
        → (o : Result QrmiError ResourceStatus × W) → r.status w1 ≡ o
        → continue
            (continue o (λ s. return (added new (is_online s.status) (trim qpu) r m)))
            (discover new qpus qpu_types)
          ≡ (ok m', w')
        → Found (qpu ∷ qpus) (qpu_type ∷ qpu_types) m w m' w'
    asked-Found r w1 c (err e, w2) a h = cc
    asked-Found r w1 c (ok s, w2) a h =
        let found = rest (added new (is_online s.status) (trim qpu) r m) w2 h in
        record {
          entries =
              record { name = trim qpu; resource = r; online = is_online s.status } ∷ found.entries;
          visited = known type_known c a found.visited;
          offered = λ name.
              found.offered name
              ∙ ap (or_option (last_online name found.entries))
                  (resource-added (is_online s.status) (trim qpu) name r m)
              ∙ sym (
                  or_option_assoc (last_online name found.entries)
                    (if eq_text (trim qpu) name then if_online (is_online s.status) r else none)
                    (resource new m name));
        }

    created-Found :
        (o : Result QrmiError (QuantumResource W) × W)
        → create_resource new t (trim qpu) w ≡ o
        → continue
            (continue o
              (λ r. r.status >>= λ s. return (added new (is_online s.status) (trim qpu) r m)))
            (discover new qpus qpu_types)
          ≡ (ok m', w')
        → Found (qpu ∷ qpus) (qpu_type ∷ qpu_types) m w m' w'
    created-Found (err e, w1) c h = cc
    created-Found (ok r, w1) c h = asked-Found r w1 c (r.status w1) refl h

  ended-Found :
      (qpus qpu_types : List Text) (m m' : ResourceMap new) (w w' : W)
      → Visited qpus qpu_types w [] w
      → ◌≡◌ {A = Result QrmiError (ResourceMap new) × W} (ok m, w) (ok m', w')
      → Found qpus qpu_types m w m' w'
  ended-Found qpus qpu_types m m' w w' v h =
      let e : m ≡ m' = cc in
      let d : w ≡ w' = cc in
      rw (← d) (rw (← e) (record { entries = []; visited = v; offered = λ name. refl }))

  discover-Found :
      (qpus qpu_types : List Text) (m : ResourceMap new) (w : W) (m' : ResourceMap new) (w' : W)
      → discover new qpus qpu_types m w ≡ (ok m', w')
      → Found qpus qpu_types m w m' w'
  unfolding discover
  discover-Found [] qpu_types m w m' w' h = ended-Found [] qpu_types m m' w w' no_more h
  discover-Found (qpu ∷ qpus) [] m w m' w' h = ended-Found (qpu ∷ qpus) [] m m' w w' no_types h
  discover-Found (qpu ∷ qpus) (qpu_type ∷ qpu_types) m w m' w' h =
      let rest = λ (more : ResourceMap new) (v : W). discover-Found qpus qpu_types more v m' w' in
      elim (Option-cases (from_qpu_type_str qpu_type)) [
        | inl e ↦
            let found = rest m w (rw e at h) in
            record {
              entries = found.entries;
              visited = unknown e found.visited;
              offered = found.offered;
            }
        | inr (t, e) ↦
            created-Found qpu qpu_type qpus qpu_types m w m' w' rest t e
              (create_resource new t (trim qpu) w) refl (unfold admit in rw e at h)
      ]

  -- If `QRMIService::new` succeeds, the lists of the job were read, and of each QPU of a known type in
  -- turn the resource was created and its status obtained; under each name the service then offers the
  -- resource of the last of them that was online, and none if no one was.
  pub new_service-last_online :
      (env : Env) (w : W) (resources : ResourceMap new) (w' : W)
      → new_service new env w ≡ (ok resources, w')
      → (qpus : List Text) × (qpu_types : List Text) × (entries : List Entry)
        × (get_job_qpu_resources_and_types env ≡ ok (qpus, qpu_types))
        × Visited qpus qpu_types w entries w'
        × ((name : Text) → resource new resources name ≡ last_online name entries)
  unfolding new_service
  new_service-last_online env w resources w' h =
      elim (Result-cases (get_job_qpu_resources_and_types env)) [
        | inr (e, r) ↦ let h' = rw r at h in cc
        | inl ((qpus, qpu_types), r) ↦
            let found = discover-Found qpus qpu_types [] w resources w' (rw r at h) in
            (
              qpus,
              qpu_types,
              found.entries,
              r,
              found.visited,
              λ name. found.offered name ∙ nothing_before (last_online name found.entries) name,
            )
      ]
