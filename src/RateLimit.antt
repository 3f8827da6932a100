-- ===== src/RateLimit.antt =====
-- apps/api/src/common/rate-limit/rate-limit-memory.store.ts and rate-limit.service.ts of that folder: the
-- sliding window and the choice of the store. The Redis store, a script that Redis runs, is an
-- argument. Times are milliseconds; a bucket is the value of the map at its key.
mod Tests
pub mod Window
pub mod Login
use certiva.Prelude.{
  ℕ, ◌+◌, ◌-◌, ◌*◌, Bool, true, false, not, ◌&&◌, ◌||◌, String, Option, none, some, List, [], ◌∷◌,
  ◌++◌, ◌===◌, ltb, leb, Result, ok, err, if◌then◌else◌, filter_by, length, head_of, or_else,
}

-- RateLimitStoreResult
pub record StoreResult : Type 0 where
  pub allowed : Bool
  pub total_hits : ℕ
  pub reset_at : ℕ

abbrev pub Buckets : Type 0
Buckets = String → List ℕ

-- `buckets.set(key, hits)`
abbrev pub set_bucket : String → List ℕ → Buckets → Buckets
set_bucket key hits buckets k = if k === key then hits else buckets k

-- `timestamp > now - windowMs`
abbrev pub is_live : ℕ → ℕ → ℕ → Bool
is_live window now timestamp = ltb now (timestamp + window)

abbrev reset_at : List ℕ → ℕ → ℕ → ℕ
reset_at hits now window = or_else (head_of hits) now + window

abbrev admit : String → ℕ → ℕ → ℕ → List ℕ → Buckets → StoreResult × Buckets
admit key limit window now hits buckets =
    if leb limit (length hits)
    then (
      record { allowed = false; total_hits = length hits; reset_at = reset_at hits now window },
      set_bucket key hits buckets,
    )
    else (
      record {
        allowed = true;
        total_hits = length (hits ++ now ∷ []);
        reset_at = reset_at (hits ++ now ∷ []) now window;
      },
      set_bucket key (hits ++ now ∷ []) buckets,
    )

-- `consume` of the memory store.
unfoldable pub consume_memory : String → ℕ → ℕ → ℕ → Buckets → StoreResult × Buckets
consume_memory key limit window_seconds now buckets =
    let window = window_seconds * 1000 in
    admit key limit window now (filter_by (is_live window now) (buckets key)) buckets

pub data StoreKind : Type 0 where
  memory redis : StoreKind

pub data RuleName : Type 0 where
  auth_login verification verification_upload admin_rule : RuleName

abbrev pub can_fail_open : RuleName → Bool
can_fail_open auth_login = false
can_fail_open _ = true

pub record Rule : Type 0 where
  pub limit : ℕ
  pub window_seconds : ℕ

-- What the service keeps: the memory store, the Redis store and `redisFallbackUntil`.
pub record Limiter (R : Type 0) : Type 0 where
  pub buckets : Buckets
  pub remote : R
  pub fallback_until : ℕ

abbrev pub Remote : Type 0 → Type 0
Remote R = String → ℕ → ℕ → ℕ → R → Result (StoreResult × R)

abbrev from_memory : {R : Type 0} → String → Rule → ℕ → Limiter R → StoreResult × Limiter R
from_memory key rule now s =
    let answer = consume_memory key rule.limit rule.window_seconds now s.buckets in
    (answer.0, record s { buckets = answer.1 })

-- The answer of the Redis store, or what the `catch` does without it.
abbrev settle :
    {R : Type 0}
    → RuleName
    → String
    → Rule
    → ℕ
    → Limiter R
    → Result (StoreResult × R)
    → StoreResult × Limiter R
settle name key rule now s (ok (r, remote)) = (r, record s { remote = remote })
settle name key rule now s (err e) =
    if not (can_fail_open name)
    then (
      record {
        allowed = false;
        total_hits = rule.limit + 1;
        reset_at = now + rule.window_seconds * 1000;
      },
      s,
    )
    else from_memory key rule now (record s { fallback_until = now + 30000 })

-- `consumeFromStore`
unfoldable pub consume_from_store :
    {R : Type 0}
    → Remote R
    → StoreKind
    → RuleName
    → String
    → Rule
    → ℕ
    → Limiter R
    → StoreResult × Limiter R
consume_from_store ask memory name key rule now s = from_memory key rule now s
consume_from_store ask redis name key rule now s =
    if can_fail_open name && ltb now s.fallback_until
    then from_memory key rule now s
    else settle name key rule now s (ask key rule.limit rule.window_seconds now s.remote)
