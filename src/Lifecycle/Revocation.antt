-- ===== src/Lifecycle/Revocation.antt =====
-- `revoke` of apps/api/src/modules/credential/credential.service.ts on its branches: the revocation
-- that goes through, and the one whose chain half is lost.
pub mod Columns
use certiva.Auth
use certiva.Prelude.{
  [], ◌∷◌, ◌++◌, true, false, ◌≡◌, refl, String, some, none, List, Result, ok, err, find_first,
  find_first-update_where, find_first-holds, eq_iff, subst, sym, ◌∙◌, ◌⊎◌, inl, inr, update_where,
  Option, ap,
}
use certiva.Registry.{Credential}
use certiva.Auth.{JwtPayload}
use certiva.Anchoring
use certiva.Anchoring.{has_id}
use certiva.Anchoring.Queue.{Job, revoke_job, revoke_or_mark}
use certiva.Anchoring.Enqueue.{revoke_settles}
use certiva.Lifecycle.{
  returns, conflict, throws, Registrar, Tools, AssetBundle, rows, is_admin, build_asset_record,
  find_credential, required, find_one_or_throw, assert_credential_access, update_credential, log,
}
use certiva.Lifecycle.Revoke.{
  RevokeCredentialDto, revoked_row, with_metadata, refresh_credential_metadata, revoke,
}
use certiva.Lifecycle.Revocation.Columns.{revocation, republished, revoked-row, visible_found}

required-state : (o : Option Credential) (s : Registrar) → (required o s).1 ≡ s
unfolding required
required-state none s = refl
required-state (some c) s = refl

one-state : (id : String) (s : Registrar) → (find_one_or_throw id s).1 ≡ s
unfolding find_one_or_throw
one-state id s = required-state _ s

module _ (t : Tools) (admin : JwtPayload) (id : String) (dto : RevokeCredentialDto) (s : Registrar)
    (c : Credential) (found : find_first (has_id id) (rows s) ≡ some c)
    (trusted : is_admin admin.role ≡ false) where
  -- A credential that is revoked already is refused, and nothing changes.
  pub revoke_again :
      c.revoked ≡ true
      → revoke t admin id dto s ≡ (throws (conflict "Credential has already been revoked"), s)
  unfolding revoke find_credential required assert_credential_access
  revoke_again v = rw (found, trusted, v) refl

module _ (t : Tools) (admin : JwtPayload) (id : String) (dto : RevokeCredentialDto) (s : Registrar)
    (c : Credential) (found : find_first (has_id id) (rows s) ≡ some c)
    (trusted : is_admin admin.role ≡ false) where
  found_revoked :
      find_first (has_id id) (rows (update_credential id (revoked_row t.now admin dto) s).1)
      ≡ some (revoked_row t.now admin dto c)
  unfolding update_credential Anchoring.update_credential revoked_row
  found_revoked =
      find_first-update_where (has_id id) (revoked_row t.now admin dto) (rows s) c
        (λ d h. unfold has_id in h) found

  -- The state in which the row and the audit log have the revocation, and nothing else has.
  abbrev half_revoked : Registrar
  half_revoked =
      (log "CREDENTIAL_REVOKED" admin (some id)
        (update_credential id (revoked_row t.now admin dto) s).1).1

  half-found : find_first (has_id id) (rows half_revoked) ≡ some (revoked_row t.now admin dto c)
  unfolding log
  half-found = found_revoked

  -- The state from which the queue is asked, once the metadata has been stored.
  abbrev refreshed : AssetBundle → Registrar
  refreshed bundle = (update_credential c.id (with_metadata bundle) half_revoked).1

  refreshed-found :
      (bundle : AssetBundle)
      → find_first (has_id id) (rows (refreshed bundle))
        ≡ some (with_metadata bundle (revoked_row t.now admin dto c))
  unfolding update_credential Anchoring.update_credential log has_id revoked_row
  refreshed-found bundle =
      let same : c.id ≡ id = (eq_iff c.id id).0 (find_first-holds (has_id id) (rows s) c found) in
      subst
        (λ (j : String).
          find_first (has_id id)
            (update_where (has_id j) (with_metadata bundle) (rows half_revoked))
          ≡ some (with_metadata bundle (revoked_row t.now admin dto c)))
        (sym same)
        (find_first-update_where (has_id id) (with_metadata bundle) (rows half_revoked)
          (revoked_row t.now admin dto c) (λ d h. h) half-found)

  refreshed-queue :
      (bundle : AssetBundle)
      → ((refreshed bundle).producer.jobs ≡ s.producer.jobs)
        × ((refreshed bundle).producer.enabled ≡ s.producer.enabled)
  unfolding log update_credential Anchoring.update_credential
  refreshed-queue bundle = (refl, refl)

  -- The state once the queue has been asked.
  abbrev queued : AssetBundle → Registrar
  queued bundle = record (refreshed bundle) {
    producer = revoke_or_mark t.add id (refreshed bundle).producer;
  }

  asks_queue :
      (bundle : AssetBundle)
      → c.revoked ≡ false
      → t.update_metadata (build_asset_record (revoked_row t.now admin dto c) c.issuer) ≡ ok bundle
      → revoke t admin id dto s ≡ find_one_or_throw id (queued bundle)
  unfolding revoke find_credential required assert_credential_access update_credential log
      refresh_credential_metadata revoked_row
  asks_queue bundle n e = rw (found, trusted, n, e) refl

  -- The call ends with reading the row again.
  answered :
      (u : Registrar) (d : Credential)
      → find_first (has_id id) (rows u) ≡ some d
      → d.deleted_at ≡ none
      → find_one_or_throw id u ≡ (returns d, u)
  unfolding find_one_or_throw required
  answered u d e n = rw (visible_found id (rows u) d e n) refl

  audited :
      (bundle : AssetBundle)
      → (refreshed bundle).accounts.audit_log
        ≡ s.accounts.audit_log
          ++ record {
            action = "CREDENTIAL_REVOKED";
            actor_admin_id = some admin.sub;
            target_id = some id;
          }
            ∷ []
  unfolding log Auth.log update_credential Anchoring.update_credential
  audited bundle = refl

  -- A revocation by an account that may revoke anywhere, of a stored credential that is neither revoked
  -- nor deleted, with the blockchain enabled and the storage working: the row has the time, the account,
  -- the reason and the trimmed notes of the revocation and the new metadata, and is
  -- otherwise as it was; the audit log has one entry more; and either the chain's job is on the queue,
  -- or the queue is as it was and the row says REVOKE_ENQUEUE_FAILED. The answer is the row.
  pub revocation_queued :
      (bundle : AssetBundle) (r : Result (List Job))
      → c.revoked ≡ false
      → c.deleted_at ≡ none
      → t.update_metadata (build_asset_record (revocation t.now admin dto c) c.issuer) ≡ ok bundle
      → s.producer.enabled ≡ true
      → t.add s.producer.jobs (revoke_job id) ≡ r
      → let d = republished bundle (revocation t.now admin dto c) in
        let marked : Credential = record d { chain_status = "REVOKE_ENQUEUE_FAILED" } in
        let (a, u) = revoke t admin id dto s in
        (u.accounts.audit_log
          ≡ s.accounts.audit_log
            ++ record {
              action = "CREDENTIAL_REVOKED";
              actor_admin_id = some admin.sub;
              target_id = some id;
            }
              ∷ [])
        × (((jobs : List Job) × (r ≡ ok jobs)
              × (u.producer.jobs ≡ jobs)
              × (find_first (has_id id) (rows u) ≡ some d)
              × (a ≡ returns d))
            ⊎ ((e : String) × (r ≡ err e)
                × (u.producer.jobs ≡ s.producer.jobs)
                × (find_first (has_id id) (rows u) ≡ some marked)
                × (a ≡ returns marked)))
  revocation_queued bundle r n live e on q =
      let row = revoked-row t.now admin dto c in
      let p = (refreshed bundle).producer in
      let found_now : find_first (has_id id) p.store.credentials
          ≡ some (republished bundle (revocation t.now admin dto c)) =
        refreshed-found bundle ∙ ap (λ (x : Credential). some (with_metadata bundle x)) row in
      let asked =
        asks_queue bundle n
          (ap (λ (x : Credential). t.update_metadata (build_asset_record x c.issuer)) row ∙ e) in
      let (same_jobs, same_switch) = refreshed-queue bundle in
      rw asked
        (elim (revoke_settles t.add id p _ r (same_switch ∙ on) found_now
          (ap (λ (js : List Job). t.add js (revoke_job id)) same_jobs ∙ q)) [
            | inl (jobs, f, j, cs, logs) ↦
                let now = ap (find_first (has_id id)) cs ∙ found_now in
                rw (answered (queued bundle) _ now live)
                  (audited bundle, inl (jobs, f, j, now, refl))
            | inr (m, f, j, now, logs) ↦
                rw (answered (queued bundle) _ now live)
                  (audited bundle, inr (m, f, j ∙ same_jobs, now, refl))
          ])
