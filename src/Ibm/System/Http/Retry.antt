-- ===== src/Ibm/System/Http/Retry.antt =====
-- The middleware that sends a request again (dependencies/quantum_system_client/src/middleware/retry.rs).
use qrmi.Prelude.{
  ℕ, zero, suc, ◌+◌, ◌≤◌, ◌≡◌, refl, inl, inr, Bool, true, false, Bool-cases, if◌then◌else◌, arith,
  ◌==◌, ◌∙◌,
}

-- `is_transient` is the strategy. `should_retry` is the decision of the policy after a number of
-- retries, and where it is to send again, the wait; a policy of `build_with_max_retries` decides
-- against it after `max_n_retries` of them.
pub record RetryPolicy (V R : Type 0) : Type 0 where
  pub is_transient : R → Bool
  pub should_retry : ℕ → V → Bool × V
  pub max_n_retries : ℕ

module _ {V R : Type 0} (policy : RetryPolicy V R) (run : V → R × V) where
  abbrev pub decided : (V → R × V) → R → Bool × V → R × V
  decided again r (true, v) = again v
  decided again r (false, v) = (r, v)

  abbrev pub judged : (ℕ → V → R × V) → ℕ → R × V → R × V
  judged again n_past_retries (r, v) =
      if policy.is_transient r
      then decided (again (suc n_past_retries)) r (policy.should_retry n_past_retries v)
      else (r, v)

  -- The loop, on fuel.
  unfoldable pub retrying : ℕ → ℕ → V → R × V
  retrying zero n_past_retries v = judged (λ n. run) n_past_retries (run v)
  retrying (suc fuel) n_past_retries v = judged (retrying fuel) n_past_retries (run v)

  module _
      (refuses : (n : ℕ) (v : V)
        → policy.max_n_retries ≤ n
        → (policy.should_retry n v).0 ≡ false) where
    refused :
        (again again' : V → R × V) (r : R) (d : Bool × V)
        → d.0 ≡ false
        → decided again r d ≡ decided again' r d
    refused again again' r (true, v) h = absurd (cc h)
    refused again again' r (false, v) h = refl

    agreed :
        (again again' : V → R × V) (r : R) (d : Bool × V)
        → ((v : V) → again v ≡ again' v)
        → decided again r d ≡ decided again' r d
    agreed again again' r (true, v) h = h v
    agreed again again' r (false, v) h = refl

    judged_same :
        (again again' : ℕ → V → R × V) (n : ℕ) (o : R × V)
        → ((v : V)
            → decided (again (suc n)) o.0 (policy.should_retry n v)
              ≡ decided (again' (suc n)) o.0 (policy.should_retry n v))
        → judged again n o ≡ judged again' n o
    judged_same again again' n (r, v) h = elim (Bool-cases (policy.is_transient r)) [
      | inl e ↦ rw e (h v)
      | inr e ↦ rw e
    ]

    -- Fuel for the retries that are left is enough: more makes no difference.
    retrying_enough :
        (fuel n : ℕ) (v : V)
        → policy.max_n_retries ≤ n + fuel
        → retrying (suc fuel) n v ≡ retrying fuel n v
    unfolding retrying
    retrying_enough zero n v l =
        judged_same (retrying zero) (λ n. run) n (run v)
          (λ u.
            refused (retrying zero (suc n)) run (run v).0 (policy.should_retry n u)
              (refuses n u (ground (arith, l))))
    retrying_enough (suc fuel) n v l =
        judged_same (retrying (suc fuel)) (retrying fuel) n (run v) (λ u.
          agreed (retrying (suc fuel) (suc n)) (retrying fuel (suc n)) (run v).0
            (policy.should_retry n u) (λ w. retrying_enough fuel (suc n) w (ground (arith, l))))

  -- What a count that every sending adds one to comes to.
  module _ (posts : V → ℕ)
      (refuses : (n : ℕ) (v : V) → policy.max_n_retries ≤ n → (policy.should_retry n v).0 ≡ false)
      (waits : (n : ℕ) (v : V) → posts (policy.should_retry n v).1 ≡ posts v)
      (adds : (v : V) → posts (run v).1 ≡ suc (posts v)) where
    abbrev Sent : ℕ → V → R × V → Type 0
    Sent n v o = (posts v + 1 ≤ posts o.1) × (posts o.1 + n ≤ posts v + suc policy.max_n_retries)

    decided-Sent :
        (again : V → R × V) (n : ℕ) (v : V) (r : R) (d : Bool × V)
        → posts d.1 ≡ posts v + 1
        → n ≤ policy.max_n_retries
        → (policy.max_n_retries ≤ n → d.0 ≡ false)
        → ((u : V) → suc n ≤ policy.max_n_retries → Sent (suc n) u (again u))
        → Sent n v (decided again r d)
    decided-Sent again n v r (false, u) e l last h = (ground (arith, e), ground (arith, e, l))
    decided-Sent again n v r (true, u) e l last h = elim (Bool-cases (n == policy.max_n_retries)) [
      | inl same ↦ absurd (cc (last (ground (arith, same))))
      | inr less ↦
          let sent = h u (ground (arith, less, l)) in
          (ground (arith, sent.0, e), ground (arith, sent.1, e))
    ]

    judged-Sent :
        (again : ℕ → V → R × V) (n : ℕ) (v : V)
        → n ≤ policy.max_n_retries
        → ((u : V) → suc n ≤ policy.max_n_retries → Sent (suc n) u (again (suc n) u))
        → Sent n v (judged again n (run v))
    judged-Sent again n v l h = elim (Bool-cases (policy.is_transient (run v).0)) [
      | inr e ↦ rw e (ground (arith, adds v), ground (arith, adds v, l))
      | inl e ↦ rw e (
          decided-Sent (again (suc n)) n v (run v).0 (policy.should_retry n (run v).1)
            (ground (arith, waits n (run v).1, adds v)) l (refuses n (run v).1) h)
    ]

    retrying-Sent :
        (fuel n : ℕ) (v : V)
        → n ≤ policy.max_n_retries
        → policy.max_n_retries ≤ n + fuel
        → Sent n v (retrying fuel n v)
    unfolding retrying
    retrying-Sent zero n v l enough = judged-Sent (λ m. run) n v l (λ u k. absurd (ground arith))
    retrying-Sent (suc fuel) n v l enough =
        judged-Sent (retrying fuel) n v l
          (λ u k. retrying-Sent fuel (suc n) u k (ground (arith, enough)))

    -- A request is sent once at least, and once more at most for each retry.
    pub retrying-most :
        (v : V)
        → (posts v + 1 ≤ posts (retrying policy.max_n_retries 0 v).1)
          × (posts (retrying policy.max_n_retries 0 v).1 ≤ posts v + suc policy.max_n_retries)
    retrying-most v =
        let sent = retrying-Sent policy.max_n_retries 0 v (ground arith) (ground arith) in
        (sent.0, ground (arith, sent.1))

  module _ (runs : V → ℕ) (waits : (n : ℕ) (v : V) → runs (policy.should_retry n v).1 ≡ runs v)
      (keeps : (v : V) → runs (run v).1 ≡ runs v) where
    judged-kept :
        (again : ℕ → V → R × V) (n : ℕ) (v : V)
        → ((u : V) → runs (again (suc n) u).1 ≡ runs u)
        → runs (judged again n (run v)).1 ≡ runs v
    judged-kept again n v h = elim (Bool-cases (policy.is_transient (run v).0)) [
      | inr e ↦ rw e (keeps v)
      | inl e ↦ rw e (decided-kept (policy.should_retry n (run v).1) (waits n (run v).1 ∙ keeps v))
    ]
      where
        decided-kept :
            (d : Bool × V)
            → runs d.1 ≡ runs v
            → runs (decided (again (suc n)) (run v).0 d).1 ≡ runs v
        decided-kept (true, u) e = h u ∙ e
        decided-kept (false, u) e = e

    -- What neither a sending nor a wait changes.
    pub retrying_kept : (fuel n : ℕ) (v : V) → runs (retrying fuel n v).1 ≡ runs v
    unfolding retrying
    retrying_kept zero n v = judged-kept (λ m. run) n v keeps
    retrying_kept (suc fuel) n v = judged-kept (retrying fuel) n v (retrying_kept fuel (suc n))
