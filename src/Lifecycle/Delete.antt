-- ===== src/Lifecycle/Delete.antt =====
-- `remove` and `bulkDelete` of apps/api/src/modules/credential/credential.service.ts.
use certiva.Prelude.{
  ℕ, not, ◌||◌, String, Option, none, some, List, ◌===◌, if◌then◌else◌, or_else, is_some,
}
use certiva.Registry.{Credential}
use certiva.Auth.{JwtPayload}
use certiva.Lifecycle.{
  conflict, returns, M, ◌>>=◌, ◌>>◌, pure, check, call, Tools, rows, update_credential, log,
  find_credential, assert_credential_access, resolve_id,
}
use certiva.Lifecycle.Revoke.{Tally, zero_tally, Round, skipped, changed, run_rounds, snapshot_row}

unfoldable pub deleted_row : ℕ → JwtPayload → Credential → Credential
deleted_row now admin c = record c {
  deleted_at = some now;
  deleted_by = some (or_else admin.username admin.sub);
  deleted_by_admin_id = some admin.sub;
}

-- `remove`; the answer is `{ id, deleted: true }`.
unfoldable pub remove : Tools → JwtPayload → String → M String
unfolding deleted_row
remove t admin id = do
  existing ← find_credential id
  assert_credential_access t.setting admin existing.issuer.id
  check existing.revoked (conflict "Only revoked credentials can be deleted")
  check (not (is_some existing.deleted_at)) (conflict "Credential is already deleted")
  update_credential id (deleted_row t.now admin)
  log "CREDENTIAL_DELETED" admin (some id)
  pure id

unfoldable pub delete_in_bulk : Tools → JwtPayload → String → M Round
unfolding deleted_row
delete_in_bulk t admin id = do
  call t.commits
  update_credential id (deleted_row t.now admin)
  log "CREDENTIAL_DELETED" admin (some id)
  pure changed

unfoldable pub bulk_delete_round :
    Tools → JwtPayload → String → String → Option Credential → M Round
unfolding delete_in_bulk
bulk_delete_round t admin issuer_id id none = pure skipped
bulk_delete_round t admin issuer_id id (some existing) =
    if not (existing.issuer.id === issuer_id)
      || (not existing.revoked || is_some existing.deleted_at)
    then pure skipped
    else delete_in_bulk t admin id

unfoldable pub bulk_delete : (ℕ → Tools) → JwtPayload → List String → M Tally
unfolding bulk_delete_round snapshot_row
bulk_delete t admin ids = do
  issuer_id ← resolve_id (t 0).setting admin
  λ s.
      let (n, s') =
        run_rounds (λ k id. bulk_delete_round (t k) admin issuer_id id (snapshot_row id (rows s))) 0
          ids zero_tally s in
      (returns n, s')
