-- ===== src/Lifecycle/Revoking.antt =====
-- `revoke` and `bulkRevoke` lose no row and undo nothing, whatever they return or throw.
use certiva.Prelude.{
  inl, ℕ, ◌+◌, true, false, not, ◌||◌, refl, String, Option, none, some, List, [], ◌∷◌, ◌===◌,
  if◌then◌else◌,
}
use certiva.Registry.{Credential}
use certiva.Auth.{JwtPayload}
use certiva.Anchoring.{has_id}
use certiva.Lifecycle.{
  Registrar, M, ◌>>◌, pure, Tools, rows, find_one_or_throw, update_credential, on_producer, log,
}
use certiva.Lifecycle.Rows.{Kept, IsOrderly, IsSound}
use certiva.Lifecycle.Rows.Update.{All-IsOrderly}
use certiva.Lifecycle.Growth.{Grows, Grows-refl, Grows-trans, then-Grows}
use certiva.Lifecycle.Rules.{
  found-then, check-then, call-then, access-then, resolve-then, log-then, producer-then,
  update-then, update_credential-Grows, find_one-Grows,
}
use certiva.Anchoring.Queue.{revoke_or_mark}
use certiva.Lifecycle.Quiet.{revoke_or_mark-Quiet}
use certiva.Lifecycle.Revoke.{
  RevokeCredentialDto, revoked_row, with_metadata, refresh_credential_metadata, revoke, Tally,
  Round, skipped, changed, run_rounds, zero_tally, snapshot_row, revoke_in_bulk, bulk_revoke_round,
  bulk_revoke,
}

pub revoked-Kept :
    (now : ℕ) (admin : JwtPayload) (dto : RevokeCredentialDto) (c : Credential)
    → Kept c (revoked_row now admin dto c)
unfolding revoked_row
revoked-Kept now admin dto c = record {
  same = refl;
  hashes = inl (refl, refl);
  stays_revoked = λ _. refl;
  stays_deleted = λ d. d;
}

revoked-IsOrderly :
    (now : ℕ) (admin : JwtPayload) (dto : RevokeCredentialDto) (c : Credential)
    → IsOrderly c
    → IsOrderly (revoked_row now admin dto c)
unfolding revoked_row
revoked-IsOrderly now admin dto c o = λ _. refl

refresh-Grows :
    (t : Tools) (c : Credential) (s : Registrar)
    → IsSound (rows s)
    → Grows s (refresh_credential_metadata t c s).1
unfolding refresh_credential_metadata
refresh-Grows t c s h = call-then s h (t.update_metadata _) _ (λ bundle.
    update_credential-Grows s h c.id (with_metadata bundle)
      (λ d. record {
        same = refl;
        hashes = inl (refl, refl);
        stays_revoked = λ x. x;
        stays_deleted = λ x. x;
      })
      (All-IsOrderly _ (with_metadata bundle) (rows s) (λ d o. o) h.orderly))

module _ (t : Tools) (admin : JwtPayload) (id : String) (dto : RevokeCredentialDto) where
  finish-Grows :
      (s : Registrar)
      → IsSound (rows s)
      → Grows s ((on_producer (revoke_or_mark t.add id) >> find_one_or_throw id) s).1
  finish-Grows s h =
      producer-then s h (revoke_or_mark t.add id) (find_one_or_throw id)
        (revoke_or_mark-Quiet t.add id s.producer) (λ u i. find_one-Grows u i id)

  commit-Grows :
      (c : Credential) (s : Registrar)
      → IsSound (rows s)
      → Grows s
          ((do
            update_credential id (revoked_row t.now admin dto)
            log "CREDENTIAL_REVOKED" admin (some id)
            refresh_credential_metadata t (revoked_row t.now admin dto c)
            on_producer (revoke_or_mark t.add id)
            find_one_or_throw id)
            s).1
  commit-Grows c s h =
      update-then s h id (revoked_row t.now admin dto) _ (revoked-Kept t.now admin dto)
        (All-IsOrderly (has_id id) (revoked_row t.now admin dto) (rows s)
          (revoked-IsOrderly t.now admin dto) h.orderly)
        (λ u i. log-then u i _ admin _ _ (λ v j.
          then-Grows v (refresh_credential_metadata t _) _ (refresh-Grows t _ v j)
            (λ _ w k. finish-Grows w k)))

  pub revoke-Grows : (s : Registrar) → IsSound (rows s) → Grows s (revoke t admin id dto s).1
  unfolding revoke
  revoke-Grows s h = found-then s h id _ (λ c found.
      access-then s h t.setting admin c.issuer.id _
        (λ u i same. check-then u i (not c.revoked) _ _ (λ _. commit-Grows c u i)))

  in_bulk-Grows : (s : Registrar) → IsSound (rows s) → Grows s (revoke_in_bulk t admin dto id s).1
  unfolding revoke_in_bulk
  in_bulk-Grows s h = call-then s h t.commits _ (λ _.
      update-then s h id (revoked_row t.now admin dto) _ (revoked-Kept t.now admin dto)
        (All-IsOrderly (has_id id) (revoked_row t.now admin dto) (rows s)
          (revoked-IsOrderly t.now admin dto) h.orderly)
        (λ u i. log-then u i _ admin _ _ (λ v j.
          producer-then v j (revoke_or_mark t.add id) (pure changed)
            (revoke_or_mark-Quiet t.add id v.producer) (λ w k. Grows-refl w k))))

  pub round-Grows :
      (issuer_id : String) (o : Option Credential) (s : Registrar)
      → IsSound (rows s)
      → Grows s (bulk_revoke_round t admin dto issuer_id id o s).1
  unfolding bulk_revoke_round
  round-Grows issuer_id none s h = Grows-refl s h
  round-Grows issuer_id (some c) s h =
      elim (not (c.issuer.id === issuer_id) || c.revoked)
        as (λ b. Grows s ((if b then pure skipped else revoke_in_bulk t admin dto id) s).1) [
          | true ↦ Grows-refl s h
          | false ↦ in_bulk-Grows s h
        ]

-- Rounds that lose nothing, from any state that has lost nothing since `u`, are a loop that loses
-- nothing.
pub rounds-Grows :
    (body : ℕ → String → M Round) (k : ℕ) (ids : List String) (n : Tally) (u s : Registrar)
    → ((k : ℕ) (id : String) (t : Registrar) → Grows u t → Grows t (body k id t).1)
    → Grows u s
    → Grows u (run_rounds body k ids n s).1
rounds-Grows body k [] n u s step h = h
rounds-Grows body k (id ∷ ids) n u s step h =
    rounds-Grows body (k + 1) ids _ u (body k id s).1 step
      (Grows-trans u s (body k id s).1 h (step k id s h))

pub bulk_revoke-Grows :
    (t : ℕ → Tools) (admin : JwtPayload) (ids : List String) (dto : RevokeCredentialDto)
    (s : Registrar)
    → IsSound (rows s)
    → Grows s (bulk_revoke t admin ids dto s).1
unfolding bulk_revoke
bulk_revoke-Grows t admin ids dto s h = resolve-then s h (t 0).setting admin _ (λ issuer_id u i.
    rounds-Grows _ 0 ids zero_tally u u
      (λ k id v g. round-Grows (t k) admin id dto issuer_id (snapshot_row id (rows u)) v g.sound)
      (Grows-refl u i))
