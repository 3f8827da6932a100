-- ===== src/RateLimit/Window.antt =====
-- The bound that the memory store of apps/api/src/common/rate-limit/rate-limit-memory.store.ts keeps.
use certiva.Prelude.{
  ℕ, ◌+◌, ◌*◌, ◌≤◌, ◌<◌, Bool, true, false, ◌&&◌, ◌≡◌, refl, sym, ap, subst, ◌∙◌, inl, inr, String,
  List, [], ◌∷◌, ◌++◌, ◌===◌, ltb, leb, if◌then◌else◌, filter_by, length, length-append,
  length-filter_by, arith, Bool-cases, eq_iff, ◌⊎◌,
}
use certiva.RateLimit.{Buckets, is_live, consume_memory}

abbrev pub no_buckets : Buckets
no_buckets key = []

-- The requests so far, at times that do not go back, and the times at which those of `key` were
-- allowed.
pub data Requests (key : String) (limit window_seconds : ℕ) : Buckets → ℕ → List ℕ → Type 0 where
  none_yet : Requests key limit window_seconds no_buckets 0 []
  request :
      {buckets : Buckets} {last : ℕ} {allowed : List ℕ} (k : String) (now : ℕ)
      → Requests key limit window_seconds buckets last allowed
      → last ≤ now
      → Requests key limit window_seconds
          (consume_memory k limit window_seconds now buckets).1
          now
          (if k === key && (consume_memory k limit window_seconds now buckets).0.allowed
            then allowed ++ now ∷ []
            else allowed)

-- A hit at `t` counts in the window that ends at `x`.
abbrev pub in_window : ℕ → ℕ → ℕ → Bool
in_window window x t = leb t x && ltb x (t + window)

filter_by-append :
    (p : ℕ → Bool) (ts us : List ℕ) → filter_by p (ts ++ us) ≡ filter_by p ts ++ filter_by p us
filter_by-append p [] us = refl
filter_by-append p (t ∷ ts) us = elim (Bool-cases (p t)) [
  | inl e ↦ rw (e, filter_by-append p ts us) refl
  | inr n ↦ rw (n, filter_by-append p ts us) refl
]

-- What is live later is live now.
still_live :
    (window now x : ℕ) (ts : List ℕ)
    → now ≤ x
    → filter_by (is_live window x) (filter_by (is_live window now) ts)
      ≡ filter_by (is_live window x) ts
still_live window now x [] h = refl
still_live window now x (t ∷ ts) h = ground (arith, h, still_live window now x ts h)

length-in_window :
    (window now x : ℕ) (ts : List ℕ)
    → now ≤ x
    → length (filter_by (in_window window x) ts) ≤ length (filter_by (is_live window now) ts)
length-in_window window now x [] h = omega arith
length-in_window window now x (t ∷ ts) h = ground (arith, h, length-in_window window now x ts h)

module _ (limit window_seconds : ℕ) where
  abbrev hits_at : ℕ → List ℕ → List ℕ
  hits_at now ts = filter_by (is_live (window_seconds * 1000) now) ts

  -- A request of `key` itself: what it leaves in the bucket, and whether it was allowed.
  own_request :
      (key : String) (now : ℕ) (buckets : Buckets)
      → (((consume_memory key limit window_seconds now buckets).0.allowed ≡ true)
          × ((consume_memory key limit window_seconds now buckets).1 key
              ≡ hits_at now (buckets key) ++ now ∷ [])
          × (length (hits_at now (buckets key)) < limit))
        ⊎ (((consume_memory key limit window_seconds now buckets).0.allowed ≡ false)
            × ((consume_memory key limit window_seconds now buckets).1 key
                ≡ hits_at now (buckets key)))
  unfolding consume_memory
  own_request key now buckets = elim (Bool-cases (leb limit (length (hits_at now (buckets key))))) [
    | inl t ↦ inr (rw t refl, rw (t, (eq_iff key key).1 refl) refl)
    | inr n ↦ inl (rw n refl, rw (n, (eq_iff key key).1 refl) refl, ground (arith, n))
  ]

  other_request :
      (k key : String) (now : ℕ) (buckets : Buckets)
      → (k === key) ≡ false
      → (consume_memory k limit window_seconds now buckets).1 key ≡ buckets key
  unfolding consume_memory
  other_request k key now buckets n =
      let other : (key === k) ≡ false = ground (arith, eq_iff k key, eq_iff key k, n) in
      elim (Bool-cases (leb limit (length (hits_at now (buckets k))))) [
        | inl t ↦ rw (t, other) refl
        | inr f ↦ rw (f, other) refl
      ]

  -- The allowed times of `key` after a request of it.
  abbrev noted : String → ℕ → Buckets → List ℕ → List ℕ
  noted k now buckets allowed =
      if (consume_memory k limit window_seconds now buckets).0.allowed
      then allowed ++ now ∷ []
      else allowed

  module _ (key : String) (now : ℕ) (buckets : Buckets) (allowed : List ℕ) where
    own_tracks :
        (x : ℕ)
        → now ≤ x
        → hits_at x (buckets key) ≡ hits_at x allowed
        → hits_at x ((consume_memory key limit window_seconds now buckets).1 key)
          ≡ hits_at x (noted key now buckets allowed)
    own_tracks x h before =
        let live = is_live (window_seconds * 1000) x in
        let kept = still_live (window_seconds * 1000) now x (buckets key) h ∙ before in
        elim (own_request key now buckets) [
          | inl (a, bucket, _) ↦
              rw (a, bucket)
                (filter_by-append live (hits_at now (buckets key)) (now ∷ [])
                  ∙ ap (λ ts. ts ++ filter_by live (now ∷ [])) kept
                  ∙ sym (filter_by-append live allowed (now ∷ [])))
          | inr (a, bucket) ↦ rw (a, bucket) kept
        ]

    length-appended :
        (q : ℕ → Bool)
        → length (filter_by q (allowed ++ now ∷ []))
          ≡ length (filter_by q allowed) + length (filter_by q (now ∷ []))
    length-appended q =
        ap length (filter_by-append q allowed (now ∷ []))
        ∙ length-append (filter_by q allowed) (filter_by q (now ∷ []))

    own_bound :
        (x : ℕ)
        → hits_at now (buckets key) ≡ hits_at now allowed
        → length (filter_by (in_window (window_seconds * 1000) x) allowed) ≤ limit
        → length (filter_by (in_window (window_seconds * 1000) x) (noted key now buckets allowed))
          ≤ limit
    own_bound x tracked before =
        let q = in_window (window_seconds * 1000) x in
        elim (own_request key now buckets) [
          | inr (a, _) ↦ rw a before
          | inl (a, _, room) ↦ rw a (elim (Bool-cases (leb now x)) [
            | inl t ↦ omega (
              arith,
              room,
              ap length tracked,
              length-appended q,
              length-filter_by q (now ∷ []),
              length-in_window (window_seconds * 1000) now x allowed (ground (arith, t)),
            )
            | inr n ↦
                let outside : length (filter_by q (now ∷ [])) ≡ 0 = ground (arith, n) in
                omega (arith, before, length-appended q, outside)
          ])
        ]

  -- The bucket holds what is live of the allowed hits, from the last request on.
  tracks :
      (key : String) (buckets : Buckets) (last : ℕ) (allowed : List ℕ)
      → Requests key limit window_seconds buckets last allowed
      → (x : ℕ) → last ≤ x
      → hits_at x (buckets key) ≡ hits_at x allowed
  tracks key _ _ _ none_yet x h = refl
  tracks key _ _ _ (request {buckets} {last} {allowed} k now before later) x h =
      let earlier = tracks key buckets last allowed before x (omega (arith, later, h)) in
      elim (Bool-cases (k === key)) [
        | inl t ↦ rw t (
            subst
              (λ i.
                hits_at x ((consume_memory i limit window_seconds now buckets).1 key)
                ≡ hits_at x (noted i now buckets allowed))
              (sym ((eq_iff k key).0 t)) (own_tracks key now buckets allowed x h earlier))
        | inr n ↦ rw (n, other_request k key now buckets n) earlier
      ]

-- Whatever comes in, at times that do not go back and with the same limit and window throughout: no
-- window of that length, wherever it ends, holds more allowed requests of one key than the limit.
pub window_bound :
    (key : String) (limit window_seconds : ℕ) (buckets : Buckets) (last : ℕ) (allowed : List ℕ)
    (x : ℕ)
    → Requests key limit window_seconds buckets last allowed
    → length (filter_by (in_window (window_seconds * 1000) x) allowed) ≤ limit
window_bound key limit window_seconds _ _ _ x none_yet = omega arith
window_bound key limit window_seconds _ _ _ x
      (request {buckets} {last} {allowed} k now before later) =
    let bounded = window_bound key limit window_seconds buckets last allowed x before in
    elim (Bool-cases (k === key)) [
      | inl t ↦ rw t (
          subst
            (λ i.
              length (
                filter_by (in_window (window_seconds * 1000) x)
                  (noted limit window_seconds i now buckets allowed))
              ≤ limit)
            (sym ((eq_iff k key).0 t))
            (own_bound limit window_seconds key now buckets allowed x
              (tracks limit window_seconds key buckets last allowed before now later) bounded))
      | inr n ↦ rw n bounded
    ]
