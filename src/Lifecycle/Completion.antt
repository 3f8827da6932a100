-- ===== src/Lifecycle/Completion.antt =====
-- `bulkRevoke` of apps/api/src/modules/credential/credential.service.ts reaches every credential it is
-- asked to revoke.
use certiva.Prelude.{
  ℕ, ◌+◌, true, ◌≡◌, refl, sym, ap, subst, ◌∙◌, inl, inr, String, some, List, [], ◌∷◌, ok, ◌===◌,
  Bool-cases, find_first, find_first-update_where, update_where, All, any_of, eq_iff, eq_refl,
}
use certiva.Registry.{Credential}
use certiva.Auth.{JwtPayload}
use certiva.Anchoring
use certiva.Anchoring.{has_id}
use certiva.Anchoring.Queue.{Producer}
use certiva.Lifecycle.{
  Attempt, returns, Registrar, M, Tools, rows, update_credential, log, resolve_id,
}
use certiva.Lifecycle.Rows.{Extends, IsSound}
use certiva.Lifecycle.Rows.Update.{Kept-found}
use certiva.Lifecycle.Quiet.{revoke_or_mark-Quiet}
use certiva.Lifecycle.Growth.{Grows, Grows-refl, Grows-trans, resolve_id-Passes}
use certiva.Lifecycle.Revoke.{
  RevokeCredentialDto, Round, Tally, run_rounds, zero_tally, snapshot_row, revoked_row,
  revoke_in_bulk, bulk_revoke_round, bulk_revoke,
}
use certiva.Lifecycle.Revoking.{round-Grows, rounds-Grows}

-- The credential is in the table, and revoked.
abbrev pub Revoked : String → List Credential → Type 0
Revoked id xs = (d : Credential) × (find_first (has_id id) xs ≡ some d) × (d.revoked ≡ true)

Revoked-Extends :
    (id : String) (xs ys : List Credential) → Extends xs ys → Revoked id xs → Revoked id ys
Revoked-Extends id xs ys h (c, e, v) =
    let (d, f, k) = Kept-found id xs ys c h e in (d, f, k.stays_revoked v)

module _ (t : Tools) (admin : JwtPayload) (dto : RevokeCredentialDto) (id : String)
    (s : Registrar) where
  updated-Revoked :
      (d : Credential)
      → find_first (has_id id) (rows s) ≡ some d
      → Revoked id (update_where (has_id id) (revoked_row t.now admin dto) (rows s))
  unfolding revoked_row
  updated-Revoked d e = (
    revoked_row t.now admin dto d,
    find_first-update_where (has_id id) (revoked_row t.now admin dto) (rows s) d
        (λ c h. unfold has_id in h) e,
    refl,
  )

  in_bulk-Revoked :
      (d : Credential)
      → t.commits ≡ ok tt
      → find_first (has_id id) (rows s) ≡ some d
      → Revoked id (rows (revoke_in_bulk t admin dto id s).1)
  unfolding revoke_in_bulk update_credential Anchoring.update_credential log
  in_bulk-Revoked d c e =
      rw c (Revoked-Extends id _ _ (revoke_or_mark-Quiet t.add id _).registry (updated-Revoked d e))

  -- A round on a credential of the institution, in a loop that read the table in the state `u`.
  round-Revoked :
      (i : String) (u : Registrar) (c : Credential)
      → Grows u s
      → t.commits ≡ ok tt
      → find_first (has_id id) (rows u) ≡ some c
      → c.issuer.id ≡ i
      → Revoked id (rows (bulk_revoke_round t admin dto i id (some c) s).1)
  unfolding bulk_revoke_round
  round-Revoked i u c g commits e own =
      let (d, f, k) = Kept-found id (rows u) (rows s) c g.registry e in
      let mine : (c.issuer.id === i) ≡ true = ap (λ (j : String). j === i) own ∙ eq_refl i in
      elim (Bool-cases c.revoked) [
        | inl v ↦ simp (mine, v) (d, f, k.stays_revoked v)
        | inr n ↦ simp (mine, n) (in_bulk-Revoked d commits f)
      ]

module _ (t : ℕ → Tools) (admin : JwtPayload) (dto : RevokeCredentialDto) (i : String)
    (u : Registrar) (commits : (k : ℕ) → (t k).commits ≡ ok tt) where
  abbrev round : ℕ → String → M Round
  round k id = bulk_revoke_round (t k) admin dto i id (snapshot_row id (rows u))

  rounds-Revoked :
      (k : ℕ) (ids : List String) (n : Tally) (s : Registrar)
      → Grows u s
      → All
          (λ id.
            (c : Credential)
            → find_first (has_id id) (rows u) ≡ some c
            → c.issuer.id ≡ i
            → Revoked id (rows (run_rounds round k ids n s).1))
          ids
  unfolding snapshot_row
  rounds-Revoked k [] n s g = tt
  rounds-Revoked k (id ∷ ids) n s g =
      let next : Registrar = (round k id s).1 in
      let step = round-Grows (t k) admin id dto i (snapshot_row id (rows u)) s g.sound in
      let rest : Grows next (run_rounds round (k + 1) ids _ next).1 =
        rounds-Grows round (k + 1) ids _ next next
          (λ m j v h. round-Grows (t m) admin j dto i (snapshot_row j (rows u)) v h.sound)
          (Grows-refl next step.sound) in
      (
        (λ c e own. Revoked-Extends id (rows next) _ rest.registry (
            subst (λ o. Revoked id (rows (bulk_revoke_round (t k) admin dto i id o s).1)) (sym e)
              (round-Revoked (t k) admin dto id s i u c g (commits k) e own))),
        rounds-Revoked (k + 1) ids _ next (Grows-trans u s next g step),
      )

All-asked :
    (P : String → Type 0) (id : String) (ids : List String)
    → All P ids
    → any_of (λ j. j === id) ids ≡ true
    → P id
All-asked P id [] p e = cc
All-asked P id (j ∷ ids) (p, ps) e = elim (Bool-cases (j === id)) [
  | inl t ↦ subst P ((eq_iff j id).0 t) p
  | inr n ↦ All-asked P id ids ps (rw n at e)
]

-- A bulk revocation whose transactions commit reaches all it is asked for: in a sound registry, when
-- the account's institution resolves to `i`, a credential of the request that is stored for `i` is
-- stored and revoked afterwards, also when the queue fails on some of them.
pub bulk_revoke-completes :
    (t : ℕ → Tools) (admin : JwtPayload) (ids : List String) (dto : RevokeCredentialDto)
    (s u : Registrar) (i id : String) (c : Credential)
    → IsSound (rows s)
    → resolve_id (t 0).setting admin s ≡ (returns i, u)
    → ((k : ℕ) → (t k).commits ≡ ok tt)
    → any_of (λ j. j === id) ids ≡ true
    → find_first (has_id id) (rows s) ≡ some c
    → c.issuer.id ≡ i
    → Revoked id (rows (bulk_revoke t admin ids dto s).1)
unfolding bulk_revoke
bulk_revoke-completes t admin ids dto s u i id c h e commits asked found own =
    let passed = (resolve_id-Passes (t 0).setting admin s).same_producer in
    let same : rows u ≡ rows s =
      ap (λ (r : Attempt String × Registrar). rows r.1) (sym e)
      ∙ ap (λ (q : Producer). q.store.credentials) passed in
    let all =
      rounds-Revoked t admin dto i u commits 0 ids zero_tally u
        (Grows-refl u (subst IsSound (sym same) h)) in
    rw e (All-asked _ id ids all asked c (ap (find_first (has_id id)) same ∙ found) own)
