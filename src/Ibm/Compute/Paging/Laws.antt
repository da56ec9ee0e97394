-- ===== src/Ibm/Compute/Paging/Laws.antt =====
-- The fuel of the loop over the pages (src/ibm/quantum_compute_service.rs).
use qrmi.Prelude.{
  ℕ, zero, suc, ◌+◌, ◌-◌, ◌*◌, ◌≤◌, ◌<◌, ◌≡◌, refl, Bool, true, false, Option, none, some, List, [],
  length, ltb, arith, Bool-cases, inl, inr,
}
use qrmi.Result.{Result, ok, err}
use qrmi.Errors.{QrmiError}
use qrmi.Ibm.Api.{Api, Job, ResourceKind}
use qrmi.Ibm.Compute.State.{Service, configuration, call}
use qrmi.Ibm.Compute.Paging.{
  Looped, max_offset, is_short, page_at, active_among, scanned, listed, scan, scan_fuel,
}

module _ {V Value Params Document : Type 0} (api : Api V Value Params Document) where
  abbrev Ended : Looped (Service × V) → Type 0
  Ended o = (r : Result QrmiError Bool) × (o.0 ≡ some r)

  module _ (fuel offset : ℕ) (later : ℕ → Service × V → Looped (Service × V))
      (ih : (o : ℕ) (s : Service × V)
        → o ≤ max_offset
        → max_offset < o + 200 * fuel
        → Ended (later o s))
      (h : max_offset < offset + 200 * suc fuel) where
    scanned-Ended :
        (page_len : ℕ) (r : Result QrmiError Bool) (s : Service × V)
        → Ended (scanned api later offset page_len (r, s))
    scanned-Ended page_len (err e) s = (err e, refl)
    scanned-Ended page_len (ok true) s = (ok true, refl)
    scanned-Ended page_len (ok false) s = elim (Bool-cases (is_short page_len)) [
      | inl short ↦ rw short (ok false, refl)
      | inr full ↦ elim (Bool-cases (ltb (max_offset - 200) offset)) [
        | inl last ↦ rw (full, last) (ok false, refl)
        | inr more ↦ rw (full, more) (ih (offset + 200) s (ground arith) (omega (arith, h)))
      ]
    ]

    listed-Ended :
        (r : Result QrmiError (Option (List Job))) (s : Service × V)
        → Ended (listed api later offset (r, s))
    listed-Ended (err e) s = (err e, refl)
    listed-Ended (ok none) s = let (r, s') = active_among api [] s in scanned-Ended 0 r s'
    listed-Ended (ok (some jobs)) s =
        let (r, s') = active_among api jobs s in scanned-Ended (length jobs) r s'

  scan-Ended :
      (fuel offset : ℕ) (s : Service × V)
      → offset ≤ max_offset
      → max_offset < offset + 200 * fuel
      → Ended (scan api fuel offset s)
  unfolding scan
  scan-Ended zero offset s l h = absurd (omega (arith, l, h))
  scan-Ended (suc fuel) offset s l h =
      let (r, s') =
        call api ResourceKind.job
          (λ self. api.list_jobs (configuration self) (page_at self.backend_name offset)) s in
      listed-Ended fuel offset (scan api fuel) (λ o. scan-Ended fuel o) h r s'

  -- Whatever the service answers, the loop over the pages ends with a result within the fuel that it
  -- is given: the offset never passes the largest that the service takes.
  pub scan_ends :
      (s : Service × V) → (r : Result QrmiError Bool) × ((scan api scan_fuel 0 s).0 ≡ some r)
  scan_ends s = scan-Ended scan_fuel 0 s (omega arith) (omega arith)
