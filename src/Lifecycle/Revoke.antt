-- ===== src/Lifecycle/Revoke.antt =====
-- `revoke` and `bulkRevoke` of apps/api/src/modules/credential/credential.service.ts.
use certiva.Prelude.{
  ℕ, ◌+◌, true, not, ◌||◌, String, Option, none, some, List, [], ◌∷◌, ◌===◌, if◌then◌else◌,
  find_first,
}
use certiva.Registry.{Credential}
use certiva.Anchoring
use certiva.Anchoring.Queue.{revoke_or_mark}
use certiva.Auth.{JwtPayload}
use certiva.Institution.{trimmed}
use certiva.Lifecycle.{
  conflict, Attempt, returns, throws, Registrar, M, ◌>>=◌, ◌>>◌, pure, check, call, Tools,
  AssetBundle, rows, update_credential, build_asset_record, log, find_credential, find_one_or_throw,
  assert_credential_access, resolve_id, on_producer,
}

pub record RevokeCredentialDto : Type 0 where
  pub reason : String
  pub notes : Option String

-- The data of the update.
unfoldable pub revoked_row : ℕ → JwtPayload → RevokeCredentialDto → Credential → Credential
unfolding trimmed
revoked_row now admin dto c = record c {
  revoked = true;
  revoked_at = some now;
  revoked_by = some admin.email;
  revoked_by_admin_id = some admin.sub;
  revocation_reason = some dto.reason;
  revocation_notes = trimmed dto.notes;
}

abbrev pub with_metadata : AssetBundle → Credential → Credential
with_metadata bundle c = record c {
  metadata_uri = bundle.metadata_uri;
  metadata_json = bundle.metadata_json;
  verification_url = bundle.verification_url;
}

-- `refreshCredentialMetadata`
unfoldable pub refresh_credential_metadata : Tools → Credential → M (Unit {0})
unfolding build_asset_record update_credential
refresh_credential_metadata t c = do
  bundle ← call (t.update_metadata (build_asset_record c c.issuer))
  update_credential c.id (with_metadata bundle)

unfoldable pub revoke : Tools → JwtPayload → String → RevokeCredentialDto → M Credential
unfolding revoked_row refresh_credential_metadata
revoke t admin id dto = do
  existing ← find_credential id
  assert_credential_access t.setting admin existing.issuer.id
  check (not existing.revoked) (conflict "Credential has already been revoked")
  update_credential id (revoked_row t.now admin dto)
  log "CREDENTIAL_REVOKED" admin (some id)
  refresh_credential_metadata t (revoked_row t.now admin dto existing)
  on_producer (revoke_or_mark t.add id)
  find_one_or_throw id

-- The counters of a bulk operation.
pub record Tally : Type 0 where
  pub changed : ℕ
  pub skipped : ℕ
  pub failed : ℕ

abbrev pub zero_tally : Tally
zero_tally = record { changed = 0; skipped = 0; failed = 0 }

-- What one round did: `skipped++; continue` or the whole body.
pub data Round : Type 0 where
  skipped changed : Round

abbrev pub count_round : Attempt Round → Tally → Tally
count_round (returns changed) n = record n { changed = n.changed + 1 }
count_round (returns skipped) n = record n { skipped = n.skipped + 1 }
count_round (throws e) n = record n { failed = n.failed + 1 }

-- `for (const id of ids) { try { … } catch { failed++ } }`: `body k` is the round at index k.
abbrev pub run_rounds :
    (ℕ → String → M Round) → ℕ → List String → Tally → Registrar → Tally × Registrar
run_rounds body k [] n s = (n, s)
run_rounds body k (id ∷ ids) n s =
    run_rounds body (k + 1) ids (count_round (body k id s).0 n) (body k id s).1

-- `existingById.get(id)`
unfoldable pub snapshot_row : String → List Credential → Option Credential
unfolding Anchoring.has_id
snapshot_row id snapshot = find_first (Anchoring.has_id id) snapshot

-- The transaction of a bulk revocation, and the enqueueing after it.
unfoldable pub revoke_in_bulk : Tools → JwtPayload → RevokeCredentialDto → String → M Round
unfolding revoked_row
revoke_in_bulk t admin dto id = do
  call t.commits
  update_credential id (revoked_row t.now admin dto)
  log "CREDENTIAL_REVOKED" admin (some id)
  on_producer (revoke_or_mark t.add id)
  pure changed

unfoldable pub bulk_revoke_round :
    Tools → JwtPayload → RevokeCredentialDto → String → String → Option Credential → M Round
unfolding revoke_in_bulk
bulk_revoke_round t admin dto issuer_id id none = pure skipped
bulk_revoke_round t admin dto issuer_id id (some existing) =
    if not (existing.issuer.id === issuer_id) || existing.revoked
    then pure skipped
    else revoke_in_bulk t admin dto id

-- Each round meets its own services, `t k`; the call resolves the institution with `t 0`.
unfoldable pub bulk_revoke : (ℕ → Tools) → JwtPayload → List String → RevokeCredentialDto → M Tally
unfolding bulk_revoke_round snapshot_row
bulk_revoke t admin ids dto = do
  issuer_id ← resolve_id (t 0).setting admin
  λ s.
      let (n, s') =
        run_rounds
          (λ k id. bulk_revoke_round (t k) admin dto issuer_id id (snapshot_row id (rows s))) 0 ids
          zero_tally s in
      (returns n, s')
