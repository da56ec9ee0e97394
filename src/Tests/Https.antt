-- ===== src/Tests/Https.antt =====
-- The theorems on the requests of the client of the Quantum System API, in a world that counts what
-- is handed to the service and what is sent for a token.
use qrmi.Prelude.{ℕ, suc, ltb, arith, ◌+◌, ◌≤◌, ◌≡◌, refl, true, none, some}
use qrmi.Text.{Text, codes}
use qrmi.Result.{ok}
use qrmi.Ibm.System.Http.{Net, TokenManager, handle}
use qrmi.Ibm.System.Http.Bounds.{IsCount, Made, is_rejected, handle-Made}
use qrmi.Ibm.System.Http.Errors.{from_status-SeenRight, SeenRight, job}

-- The service rejects every token, and a token is asked for three times each time.
abbrev net : Net (ℕ × ℕ) Text
net = record {
  attempt_token = λ url key v. (ok (record { status = 200; body = codes "t" }), (v.0, suc v.1));
  token_policy = record {
    is_transient = λ r. true;
    should_retry = λ n v. (ltb n 2, v);
    max_n_retries = 2;
  };
  read_token = λ body. ok (body, 3600);
  read_iam_error = λ body. none;
  read_error = λ body. some body;
  canonical_reason = λ status. none;
  print_status = λ status. codes "a status";
  now = λ v. (7, v);
  lifetime = λ n. n;
  authorize = λ token request. some request;
  run = λ request v. (ok (record { status = 401; body = codes "no" }), (suc v.0, v.1));
}

abbrev manager : TokenManager
manager = record {
  access_token = none;
  token_expiry = none;
  token_url = codes "https://iam/identity/token";
  apikey = codes "k";
}

counted : IsCount net (λ v. v.0) (λ v. v.1)
counted = record {
  clock_runs = λ v. refl;
  clock_posts = λ v. refl;
  token_runs = λ url key v. refl;
  token_posts = λ url key v. refl;
  wait_runs = λ n v. refl;
  wait_posts = λ n v. refl;
  refuses = λ n v l. ground (arith, l);
  run_runs = λ r v. refl;
  run_posts = λ r v. refl;
}

handle-Made_example :
    Made net (λ v. v.0) (λ v. v.1) 2 0 9 (0, 0) (handle net (codes "GET") (manager, (0, 0))).1.1
    × (is_rejected (handle net (codes "GET") (manager, (0, 0))).0 ≡ true
        → 0 + 1 ≤ (handle net (codes "GET") (manager, (0, 0))).1.1.1)
handle-Made_example = handle-Made net (λ v. v.0) (λ v. v.1) counted (codes "GET") (manager, (0, 0))

from_status-SeenRight_example : SeenRight (λ n. codes "a status") 404 job (codes "no")
from_status-SeenRight_example = from_status-SeenRight (λ n. codes "a status") 404 job (codes "no")
