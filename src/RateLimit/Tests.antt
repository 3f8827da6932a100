-- ===== src/RateLimit/Tests.antt =====
-- A limit of two requests a second, and the theorems about it.
use certiva.Prelude.{
  ℕ, ◌*◌, ◌≤◌, true, false, ◌≡◌, ◌⊎◌, refl, arith, String, [], ◌∷◌, ok, err, filter_by, length,
}
use certiva.RateLimit.{
  Buckets, consume_memory, Limiter, Remote, Rule, redis, auth_login, verification,
  consume_from_store,
}
use certiva.RateLimit.Window.{Requests, none_yet, request, no_buckets, in_window, window_bound}
use certiva.RateLimit.Login.{login_fails_closed}

abbrev after : ℕ → Buckets → Buckets
after now buckets = (consume_memory "k" 2 1 now buckets).1

-- The third request of the second is refused, and the first of the next is allowed.
third :
    ((consume_memory "k" 2 1 500 (after 400 (after 0 no_buckets))).0.allowed ≡ false)
    × ((consume_memory "k" 2 1 1000 (after 400 (after 0 no_buckets))).0.allowed ≡ true)
unfolding consume_memory
third = (refl, refl)

three-Requests : Requests "k" 2 1 (after 500 (after 400 (after 0 no_buckets))) 500 (0 ∷ 400 ∷ [])
unfolding consume_memory
three-Requests =
    request "k" 500 (request "k" 400 (request "k" 0 none_yet (omega arith)) (omega arith))
      (omega arith)

window_bound_example : length (filter_by (in_window (1 * 1000) 999) (0 ∷ 400 ∷ [])) ≤ 2
window_bound_example =
    window_bound "k" 2 1 (after 500 (after 400 (after 0 no_buckets))) 500 (0 ∷ 400 ∷ []) 999
      three-Requests

abbrev down : Remote ℕ
down key limit window_seconds now remote = err "ECONNREFUSED"

abbrev limiter : Limiter ℕ
limiter = record { buckets = no_buckets; remote = 0; fallback_until = 100 }

abbrev rule : Rule
rule = record { limit = 2; window_seconds = 1 }

-- Other requests fall back to the memory store.
falls_back : (consume_from_store down redis verification "k" rule 500 limiter).0.allowed ≡ true
unfolding consume_from_store consume_memory
falls_back = refl

login_fails_closed_example :
    let (r, s') = consume_from_store down redis auth_login "k" rule 50 limiter in
    (s'.buckets ≡ limiter.buckets)
    × (s'.fallback_until ≡ limiter.fallback_until)
    × (((remote : ℕ) × (down "k" 2 1 50 0 ≡ ok (r, remote)) × (s'.remote ≡ remote))
        ⊎ ((e : String) × (down "k" 2 1 50 0 ≡ err e)
            × (r.allowed ≡ false)
            × (s'.remote ≡ limiter.remote)))
login_fails_closed_example = login_fails_closed down "k" rule 50 limiter (down "k" 2 1 50 0) refl
