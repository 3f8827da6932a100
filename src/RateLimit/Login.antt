-- ===== src/RateLimit/Login.antt =====
-- What `consumeFromStore` of apps/api/src/common/rate-limit/rate-limit.service.ts does for logins.
use certiva.Prelude.{ℕ, false, ◌≡◌, refl, inl, inr, ◌⊎◌, String, Result, ok, err}
use certiva.RateLimit.{StoreResult, Limiter, Remote, Rule, redis, auth_login, consume_from_store}

-- Logins fail closed: with Redis as the store, a login attempt gets the answer of Redis or is
-- refused, whatever happened to Redis before; it neither reads nor writes the memory store, and it
-- neither starts nor uses the time of fallback.
pub login_fails_closed :
    {R : Type 0} (ask : Remote R) (key : String) (rule : Rule) (now : ℕ) (s : Limiter R)
    (answer : Result (StoreResult × R))
    → ask key rule.limit rule.window_seconds now s.remote ≡ answer
    → let (r, s') = consume_from_store ask redis auth_login key rule now s in
      (s'.buckets ≡ s.buckets)
      × (s'.fallback_until ≡ s.fallback_until)
      × (((remote : R) × (answer ≡ ok (r, remote)) × (s'.remote ≡ remote))
          ⊎ ((e : String) × (answer ≡ err e) × (r.allowed ≡ false) × (s'.remote ≡ s.remote)))
unfolding consume_from_store
login_fails_closed ask key rule now s (ok (r, remote)) e =
    rw e (refl, refl, inl (remote, refl, refl))
login_fails_closed ask key rule now s (err m) e = rw e (refl, refl, inr (m, refl, refl, refl))
