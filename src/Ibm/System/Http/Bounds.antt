-- ===== src/Ibm/System/Http/Bounds.antt =====
-- How often one request of the client of the Quantum System API is sent, and one for a token
-- (dependencies/quantum_system_client/src/middleware/auth.rs).
use qrmi.Prelude.{
  ℕ, suc, ◌+◌, ◌==◌, leb, ◌≤◌, ◌≡◌, inl, inr, Bool, true, false, Bool-cases, Option, none, some,
  arith,
}
use qrmi.Text.{Text}
use qrmi.Result.{Result, ok, err}
use qrmi.Exec.{Exec, continue}
use qrmi.Ibm.System.Http.Retry.{retrying-most, retrying_kept}
use qrmi.Ibm.System.Http.{
  Net, TokenManager, MiddlewareError, Reply, is_success, handle, post_token, get_access_token,
  get_token, ensure_token_validity, answered, granted, renew_if, unless_valid, held, held_token,
  send, send_with, send_renewed, unless_rejected,
}

-- A rejection that is passed on.
abbrev pub is_rejected : Result MiddlewareError Reply → Bool
is_rejected (ok reply) = reply.status == 401
is_rejected (err e) = false

module _ {V Request : Type 0} (net : Net V Request) (runs posts : V → ℕ) where
  -- What is counted: how often a request is handed to the rest of the chain, and the requests for a
  -- token that are sent. The policy of the latter ends, and no wait runs anything.
  pub record IsCount : Type 0 where
    pub clock_runs : (v : V) → runs (net.now v).1 ≡ runs v
    pub clock_posts : (v : V) → posts (net.now v).1 ≡ posts v
    pub token_runs : (url key : Text) (v : V) → runs (net.attempt_token url key v).1 ≡ runs v
    pub token_posts :
        (url key : Text) (v : V) → posts (net.attempt_token url key v).1 ≡ suc (posts v)
    pub wait_runs : (n : ℕ) (v : V) → runs (net.token_policy.should_retry n v).1 ≡ runs v
    pub wait_posts : (n : ℕ) (v : V) → posts (net.token_policy.should_retry n v).1 ≡ posts v
    pub refuses :
        (n : ℕ) (v : V)
        → net.token_policy.max_n_retries ≤ n
        → (net.token_policy.should_retry n v).0 ≡ false
    pub run_runs : (r : Request) (v : V) → runs (net.run r v).1 ≡ suc (runs v)
    pub run_posts : (r : Request) (v : V) → posts (net.run r v).1 ≡ posts v

  -- How often one request for a token is sent at most.
  abbrev pub tries : ℕ
  tries = suc net.token_policy.max_n_retries

  -- At most `a` runs of the rest of the chain, and at least `b` and at most `c` requests for a token.
  pub record Made (a b c : ℕ) (v w : V) : Type 0 where
    pub runs_most : runs w ≤ runs v + a
    pub posts_least : posts v + b ≤ posts w
    pub posts_most : posts w ≤ posts v + c

  module _ (count : IsCount) where
    made_none : (v : V) → Made 0 0 0 v v
    made_none v = record {
      runs_most = ground arith;
      posts_least = ground arith;
      posts_most = ground arith;
    }

    made_more :
        {a b c a' c' : ℕ} {u v w : V}
        → Made a b c u v
        → Made a' 0 c' v w
        → Made (a + a') b (c + c') u w
    made_more m m' = record {
      runs_most = ground (arith, m.runs_most, m'.runs_most);
      posts_least = ground (arith, m.posts_least, m'.posts_least);
      posts_most = ground (arith, m.posts_most, m'.posts_most);
    }

    made_within : {a b c a' c' : ℕ} {v w : V} → a ≤ a' → c ≤ c' → Made a b c v w → Made a' b c' v w
    made_within l k m = record {
      runs_most = ground (arith, l, m.runs_most);
      posts_least = m.posts_least;
      posts_most = ground (arith, k, m.posts_most);
    }

    continue-Made :
        {A B : Type 0} {a b c a' c' : ℕ} (v : V) (o : Result MiddlewareError A × (TokenManager × V))
        (f : A → Exec (TokenManager × V) MiddlewareError B)
        → Made a b c v o.1.1
        → ((x : A) (s : TokenManager × V) → Made a' 0 c' s.1 (f x s).1.1)
        → Made (a + a') b (c + c') v (continue o f).1.1
    continue-Made v (ok x, s) f m k = made_more m (k x s)
    continue-Made {a} {b} {c} {a'} {c'} v (err e, s) f m k = record {
      runs_most = ground (arith, m.runs_most);
      posts_least = m.posts_least;
      posts_most = ground (arith, m.posts_most);
    }

    granted-Made :
        (m : TokenManager) (v : V) (r : Result Text (Text × ℕ))
        → Made 0 0 0 v (granted net m v r).1.1
    granted-Made m v (ok (token, expires_in)) = record {
      runs_most = ground (arith, count.clock_runs v);
      posts_least = ground (arith, count.clock_posts v);
      posts_most = ground (arith, count.clock_posts v);
    }
    granted-Made m v (err e) = made_none v

    answered-Made :
        (m : TokenManager) (o : Result MiddlewareError Reply × V)
        → Made 0 0 0 o.1 (answered net m o).1.1
    answered-Made m (err e, v) = made_none v
    answered-Made m (ok reply, v) = elim (Bool-cases (is_success reply.status)) [
      | inl e ↦ rw e (granted-Made m v (net.read_token reply.body))
      | inr e ↦ rw e (made_none v)
    ]

    asked-Made :
        (m : TokenManager) (v : V) → Made 0 1 tries v (post_token net m.token_url m.apikey v).1
    unfolding post_token
    asked-Made m v =
        let most =
          retrying-most net.token_policy (net.attempt_token m.token_url m.apikey) posts
            count.refuses count.wait_posts (count.token_posts m.token_url m.apikey) v in
        let kept =
          retrying_kept net.token_policy (net.attempt_token m.token_url m.apikey) runs
            count.wait_runs (count.token_runs m.token_url m.apikey) net.token_policy.max_n_retries 0
            v in
        record { runs_most = ground (arith, kept); posts_least = most.0; posts_most = most.1 }

    get_access_token-Made : (s : TokenManager × V) → Made 0 1 tries s.1 (get_access_token net s).1.1
    unfolding get_access_token
    get_access_token-Made s = made_within (ground arith) (ground arith) (
        made_more (asked-Made s.0 s.1)
          (answered-Made s.0 (post_token net s.0.token_url s.0.apikey s.1)))

    made_weaker : {a b c : ℕ} {v w : V} → Made a b c v w → Made a 0 c v w
    made_weaker m = record {
      runs_most = m.runs_most;
      posts_least = ground (arith, m.posts_least);
      posts_most = m.posts_most;
    }

    renew_if-Made :
        (m : TokenManager) (expiry t : ℕ) (v : V)
        → Made 0 0 tries v (renew_if net m expiry (t, v)).1.1
    renew_if-Made m expiry t v = elim (Bool-cases (leb expiry t)) [
      | inl e ↦ rw e (made_weaker (get_access_token-Made (m, v)))
      | inr e ↦ rw e (record {
        runs_most = ground arith;
        posts_least = ground arith;
        posts_most = ground arith;
      })
    ]

    clock-Made : (v : V) → Made 0 0 0 v (net.now v).1
    clock-Made v = record {
      runs_most = ground (arith, count.clock_runs v);
      posts_least = ground (arith, count.clock_posts v);
      posts_most = ground (arith, count.clock_posts v);
    }

    renewed_at-Made :
        (m : TokenManager) (expiry : ℕ) (v : V)
        → Made 0 0 tries v (renew_if net m expiry (net.now v)).1.1
    renewed_at-Made m expiry v =
        made_within (ground arith) (ground arith)
          (made_more (clock-Made v) (renew_if-Made m expiry (net.now v).0 (net.now v).1))

    unless_valid-Made :
        (m : TokenManager) (v : V) (token : Option Text) (expiry : Option ℕ)
        → Made 0 0 tries v (unless_valid net m v token expiry).1.1
    unless_valid-Made m v none expiry = made_weaker (get_access_token-Made (m, v))
    unless_valid-Made m v (some token) (some expiry) = renewed_at-Made m expiry v
    unless_valid-Made m v (some token) none =
        made_within (ground arith) (ground arith)
          (made_more (clock-Made v) (renewed_at-Made m (net.now v).0 (net.now v).1))

    held-Made : (token : Option Text) (s : TokenManager × V) → Made 0 0 0 s.1 (held net token s).1.1
    held-Made none s = made_none s.1
    held-Made (some token) s = made_none s.1

    get_token-Made : (s : TokenManager × V) → Made 0 0 tries s.1 (get_token net s).1.1
    unfolding get_token
    get_token-Made s = made_within (ground arith) (ground arith) (
        continue-Made s.1 (ensure_token_validity net s) (λ u. held_token net)
          (unless_valid-Made s.0 s.1 s.0.access_token s.0.token_expiry)
          (λ u t. held-Made t.0.access_token t))

    send-Made : (r : Option Request) (s : TokenManager × V) → Made 1 0 0 s.1 (send net r s).1.1
    send-Made none s = record {
      runs_most = ground arith;
      posts_least = ground arith;
      posts_most = ground arith;
    }
    send-Made (some r) (m, v) = record {
      runs_most = ground (arith, count.run_runs r v);
      posts_least = ground (arith, count.run_posts r v);
      posts_most = ground (arith, count.run_posts r v);
    }

    sent-Made :
        (request : Request) (s : TokenManager × V)
        → Made 1 0 tries s.1 (continue (get_token net s) (send_with net request)).1.1
    sent-Made request s = made_within (ground arith) (ground arith) (
        continue-Made s.1 (get_token net s) (send_with net request) (get_token-Made s)
          (λ token t. send-Made (net.authorize token request) t))

    send_renewed-Made :
        (request : Request) (s : TokenManager × V)
        → Made 1 1 (tries + tries) s.1 (send_renewed net request s).1.1
    send_renewed-Made request s =
        continue-Made s.1 (get_access_token net s)
          (λ u t. continue (get_token net t) (send_with net request)) (get_access_token-Made s)
          (λ u t. sent-Made request t)

    unless_rejected-Made :
        (request : Request) (reply : Reply) (s : TokenManager × V)
        → Made 1 0 (tries + tries) s.1 (unless_rejected net request reply s).1.1
    unless_rejected-Made request reply s = elim (Bool-cases (reply.status == 401)) [
      | inl e ↦ rw e (made_weaker (send_renewed-Made request s))
      | inr e ↦ rw e (record {
        runs_most = ground arith;
        posts_least = ground arith;
        posts_most = ground arith;
      })
    ]

    judged-Renewed :
        (request : Request) (o : Result MiddlewareError Reply × (TokenManager × V))
        → is_rejected (continue o (unless_rejected net request)).0 ≡ true
        → posts o.1.1 + 1 ≤ posts (continue o (unless_rejected net request)).1.1
    judged-Renewed request (err e, s) h = cc
    judged-Renewed request (ok reply, s) h = elim (Bool-cases (reply.status == 401)) [
      | inl e ↦ rw e ((send_renewed-Made request s).posts_least)
      | inr e ↦ absurd (cc (rw e at h))
    ]

    abbrev judged :
        Request
        → Result MiddlewareError Text × (TokenManager × V)
        → Result MiddlewareError Reply × (TokenManager × V)
    judged request o =
        continue o
          (λ token t. continue (send_with net request token t) (unless_rejected net request))

    token_judged-Renewed :
        (request : Request) (v : V) (o : Result MiddlewareError Text × (TokenManager × V))
        → posts v ≤ posts o.1.1
        → is_rejected (judged request o).0 ≡ true
        → posts v + 1 ≤ posts (judged request o).1.1
    token_judged-Renewed request v (err e, t) l h = cc
    token_judged-Renewed request v (ok token, t) l h =
        let sent = send-Made (net.authorize token request) t in
        let renewed = judged-Renewed request (send_with net request token t) h in
        ground (arith, sent.posts_least, renewed)

    -- One request of the client is handed at most twice to the rest of the chain, and makes at most
    -- three requests for a token, each sent once and at most once more for each retry of the policy; an
    -- answer 401 is passed on only after a request for a new token was sent.
    pub handle-Made :
        (request : Request) (s : TokenManager × V)
        → Made 2 0 (tries + (tries + tries)) s.1 (handle net request s).1.1
          × (is_rejected (handle net request s).0 ≡ true
              → posts s.1 + 1 ≤ posts (handle net request s).1.1)
    unfolding handle
    handle-Made request s = (
      made_within (ground arith) (ground arith) (
          continue-Made s.1 (get_token net s)
            (λ token t. continue (send_with net request token t) (unless_rejected net request))
            (get_token-Made s)
            (λ token t.
              continue-Made t.1 (send_with net request token t) (unless_rejected net request)
                (send-Made (net.authorize token request) t)
                (λ reply u. unless_rejected-Made request reply u))),
      λ h.
          token_judged-Renewed request s.1 (get_token net s)
            (ground (arith, (get_token-Made s).posts_least)) h,
    )
