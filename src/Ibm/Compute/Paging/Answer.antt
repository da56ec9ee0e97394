-- ===== src/Ibm/Compute/Paging/Answer.antt =====
-- What `has_dedicated_active_session` answers over a list of jobs that stands still.
use qrmi.Prelude.{
  ℕ, zero, suc, ◌+◌, ◌-◌, ◌*◌, ◌≤◌, ◌<◌, ◌≡◌, refl, ap, ◌∙◌, Bool, true, false, ◌||◌, Option, none,
  some, List, [], ◌∷◌, length, ltb, arith, Bool-cases, inl, inr, take, drop, any, any-take-drop,
  drop-drop, drop-take, drop-beyond, length-take_le,
}
use qrmi.Text.{Text}
use qrmi.Result.{Result, ok}
use qrmi.Errors.{QrmiError}
use qrmi.Ibm.Api.{Api, Job, Session, JobStatus}
use qrmi.Ibm.Compute.State.{Service, configuration}
use qrmi.Ibm.Compute.Paging.{
  Looped, max_offset, is_short, is_dedicated_active, page_at, version, active_among, on_job,
  scanned, scan, scan_fuel, has_dedicated_active_session,
}

-- Whether a job runs in an active dedicated session.
abbrev pub used : (Text → Session) → JobStatus → Option Text → Bool
used sessions JobStatus.running (some id) =
    is_dedicated_active (sessions id).state (sessions id).mode
used sessions _ _ = false

abbrev pub in_use : (Text → Session) → Job → Bool
in_use sessions job = used sessions job.status job.session_id

-- The service answers, and its list of jobs and its sessions do not change: a page holds up to 200
-- jobs from the offset.
pub record Steady {V Value Params Document : Type 0} (api : Api V Value Params Document)
    (self : Service) (jobs : List Job) (sessions : Text → Session) : Type 0 where
  pub listed_page :
      (offset : ℕ) (v : V)
      → api.list_jobs (configuration self) (page_at self.backend_name offset) v
        ≡ (ok (some (take 200 (drop offset jobs))), v)
  pub found_session :
      (id : Text) (v : V)
      → api.get_session (configuration self) id version v ≡ (ok (sessions id), v)

is_short_page : (n : ℕ) → n ≤ 200 → is_short n ≡ ltb n 200
is_short_page n h = ground arith

module _ {V Value Params Document : Type 0} (api : Api V Value Params Document) (self : Service)
    (jobs : List Job) (sessions : Text → Session) (steady : Steady api self jobs sessions) where
  on_job-used :
      (status : JobStatus) (id : Option Text) (b : Bool) (v : V)
      (later : Service × V → Result QrmiError Bool × (Service × V))
      → later (self, v) ≡ (ok b, (self, v))
      → on_job api status id later (self, v) ≡ (ok (used sessions status id || b), (self, v))
  on_job-used JobStatus.running (some id) b v later h =
      rw (steady.found_session id v)
        (elim (Bool-cases (is_dedicated_active (sessions id).state (sessions id).mode)) [
          | inl e ↦ rw e
          | inr e ↦ rw e h
        ])
  on_job-used JobStatus.running none b v later h = h
  on_job-used _ id b v later h = h

  active_among-any :
      (page : List Job) (v : V)
      → active_among api page (self, v) ≡ (ok (any (in_use sessions) page), (self, v))
  unfolding active_among
  active_among-any [] v = refl
  active_among-any (job ∷ page) v =
      on_job-used job.status job.session_id (any (in_use sessions) page) v (active_among api page)
        (active_among-any page v)

  -- A page settles the question, or it is the last, or the pages behind it settle it.
  scanned-or :
      (b rest : Bool) (offset n : ℕ) (v : V) (later : ℕ → Service × V → Looped (Service × V))
      → n ≤ 200
      → (n < 200 → rest ≡ false)
      → (max_offset - 200 < offset → rest ≡ false)
      → (offset ≤ max_offset - 200 → later (offset + 200) (self, v) ≡ (some (ok rest), (self, v)))
      → scanned api later offset n (ok b, (self, v)) ≡ (some (ok (b || rest)), (self, v))
  scanned-or true rest offset n v later h short last more = refl
  scanned-or false rest offset n v later h short last more = elim (Bool-cases (ltb n 200)) [
    | inl e ↦ rw (is_short_page n h, e) (rw (short (ground arith)))
    | inr e ↦ elim (Bool-cases (ltb (max_offset - 200) offset)) [
      | inl l ↦ rw (is_short_page n h, e, l) (rw (last (ground arith)))
      | inr m ↦ rw (is_short_page n h, e, m) (more (ground arith))
    ]
  ]

  abbrev rest_from : ℕ → Bool
  rest_from offset = any (in_use sessions) (drop offset jobs)

  beyond : (offset : ℕ) → length jobs ≤ offset → rest_from offset ≡ false
  beyond offset h = rw (drop-beyond offset jobs h)

  scan-any :
      (fuel offset : ℕ) (v : V)
      → length jobs ≤ max_offset
      → offset ≤ max_offset
      → max_offset < offset + 200 * fuel
      → scan api fuel offset (self, v) ≡ (some (ok (rest_from offset)), (self, v))
  unfolding scan
  scan-any zero offset v small l h = absurd (omega (arith, l, h))
  scan-any (suc fuel) offset v small l h =
      let rest = drop offset jobs in
      let page = take 200 rest in
      let next : any (in_use sessions) (drop 200 rest) ≡ rest_from (offset + 200) =
        ap (any (in_use sessions)) (drop-drop 200 offset jobs) in
      rw (steady.listed_page offset v, active_among-any page v)
        (scanned-or (any (in_use sessions) page) (any (in_use sessions) (drop 200 rest)) offset
            (length page) v (scan api fuel) (length-take_le 200 rest)
            (λ short. rw (drop-take 200 rest short))
            (λ last. next ∙ beyond (offset + 200) (omega (arith, small, last)))
            (λ more.
              rw next
                (scan-any fuel (offset + 200) v small (omega (arith, more)) (omega (arith, h))))
          ∙ rw (any-take-drop (in_use sessions) 200 rest))

  -- Over a list of jobs and sessions that does not change, and that the service's offsets can reach
  -- all of, the answer is whether any job of the list runs in an active dedicated session; the
  -- service itself is left as it was.
  pub has_dedicated_active_session-any :
      (v : V)
      → length jobs ≤ max_offset
      → has_dedicated_active_session api (self, v) ≡ (ok (any (in_use sessions) jobs), (self, v))
  unfolding has_dedicated_active_session
  has_dedicated_active_session-any v small =
      rw (scan-any scan_fuel 0 v small (omega arith) (omega arith))
