-- ===== src/Ibm/Compute/State/Freshness.antt =====
-- When `check_token` (dependencies/quantum_compute_client/src/apis/auth.rs) asks for a new token.
use qrmi.Prelude.{
  ℕ, ◌+◌, ◌/◌, ◌%◌, ◌^◌, ◌≤◌, ◌<◌, ◌≡◌, ◌⊎◌, refl, true, false, some, ltb, arith, Bool-cases, inl,
  inr,
}
use qrmi.Text.{Text}
use qrmi.Result.{Result, ok, err}
use qrmi.Ibm.Api.{Api}
use qrmi.Ibm.Compute.State.{Token, max, check_token, fetched, checked}

-- A token is kept without a request only if it is valid for six minutes and for a tenth of its
-- lifetime from `now`.
pub record Kept (now : ℕ) (token token' : Token) : Type 0 where
  pub unchanged : token' ≡ token
  pub minutes : now + 360 ≤ token.expiration
  pub tenth : now + token.lifetime / 10 ≤ token.expiration

abbrev pub Expiring : ℕ → Token → Type 0
Expiring now token = (token.expiration < now + 360) ⊎ (token.expiration < now + token.lifetime / 10)

-- What a request for a token has left behind.
abbrev pub Renewed : Token → Result Text (Text × ℕ × ℕ) → Token → Result Text (Unit {0}) → Type 0
Renewed token (ok (bearer, expiration, lifetime)) token' r =
    (r ≡ ok tt)
    × (token' ≡ record { bearer = some bearer; expiration = expiration; lifetime = lifetime })
Renewed token (err e) token' r = (r ≡ err e) × (token' ≡ token)

-- A call at `now` keeps the token and the world, or the token is expiring and is asked for anew.
abbrev pub Checked :
    {V Value Params Document : Type 0}
    → Api V Value Params Document
    → Text
    → Text
    → Token
    → ℕ × V
    → Result Text (Unit {0}) × (Token × V)
    → Type 0
Checked api api_key iam_endpoint token (now, v) (r, (token', v')) =
    ((r ≡ ok tt) × (v' ≡ v) × Kept now token token')
    ⊎ (Expiring now token
        × (v' ≡ (api.fetch_access_token api_key iam_endpoint v).1)
        × Renewed token (api.fetch_access_token api_key iam_endpoint v).0 token' r)

max-split :
    (now expiration lifetime : ℕ)
    → now + 360 < 2 ^ 64
    → now + lifetime / 10 < 2 ^ 64
    → (ltb expiration ((now + max 360 (lifetime / 10)) % 2 ^ 64) ≡ true
        → (expiration < now + 360) ⊎ (expiration < now + lifetime / 10))
      × (ltb expiration ((now + max 360 (lifetime / 10)) % 2 ^ 64) ≡ false
          → (now + 360 ≤ expiration) × (now + lifetime / 10 ≤ expiration))
max-split now expiration lifetime h l = ground arith

module _ {V Value Params Document : Type 0} (api : Api V Value Params Document) where
  fetched-Renewed :
      (token : Token) (r : Result Text (Text × ℕ × ℕ)) (v : V)
      → ((fetched api token (r, v)).1.1 ≡ v)
        × Renewed token r (fetched api token (r, v)).1.0 (fetched api token (r, v)).0
  fetched-Renewed token (ok (bearer, expiration, lifetime)) v = (refl, (refl, refl))
  fetched-Renewed token (err e) v = (refl, (refl, refl))

  checked-Checked :
      (api_key iam_endpoint : Text) (token : Token) (now : ℕ) (v : V)
      → now + 360 < 2 ^ 64
      → now + token.lifetime / 10 < 2 ^ 64
      → Checked api api_key iam_endpoint token
          (now, v)
          (checked api api_key iam_endpoint token (now, v))
  checked-Checked api_key iam_endpoint token now v h l =
      let (soon, late) = max-split now token.expiration token.lifetime h l in
      elim (Bool-cases (ltb token.expiration ((now + max 360 (token.lifetime / 10)) % 2 ^ 64))) [
        | inl e ↦
            let (r, v') = api.fetch_access_token api_key iam_endpoint v in
            let (world, renewed) = fetched-Renewed token r v' in rw e (inr (soon e, world, renewed))
        | inr e ↦
            let (minutes, tenth) = late e in
            rw e (inl (refl, refl, record { unchanged = refl; minutes = minutes; tenth = tenth }))
      ]

  -- Unless the clock is within six minutes or a tenth of the token's lifetime of the end of the
  -- 64-bit seconds: `check_token` keeps the token, with no request, if it is valid for six more
  -- minutes and for a tenth of its lifetime; otherwise it asks for a new one once, and has it, with
  -- its expiration and lifetime, or on an error the old one.
  pub check_token-Checked :
      (api_key iam_endpoint : Text) (token : Token) (v : V)
      → (api.current_unix_timestamp v).0 + 360 < 2 ^ 64
      → (api.current_unix_timestamp v).0 + token.lifetime / 10 < 2 ^ 64
      → Checked api api_key iam_endpoint token
          (api.current_unix_timestamp v)
          (check_token api api_key iam_endpoint (token, v))
  unfolding check_token
  check_token-Checked api_key iam_endpoint token v h l =
      let (now, v') = api.current_unix_timestamp v in
      checked-Checked api_key iam_endpoint token now v' h l
