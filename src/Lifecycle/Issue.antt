-- ===== src/Lifecycle/Issue.antt =====
-- `create` and `issueCredentialRecord` of apps/api/src/modules/credential/credential.service.ts, with
-- the unique indexes that the insertion meets.
pub mod Content
use certiva.Prelude.{
  ℕ, Bool, false, not, ◌&&◌, ◌||◌, String, Option, none, some, List, [], ◌∷◌, ◌++◌, Result, ok, err,
  ◌===◌, if◌then◌else◌, or_else, any_of, is_some,
}
use certiva.Assets.{◌<>◌}
use certiva.Registry.{Credential, Issuer}
use certiva.Auth.{JwtPayload}
use certiva.Institution.{find_issuer}
use certiva.Anchoring.Queue.{anchor_or_mark}
use certiva.Lifecycle.{
  Exception, conflict, internal, not_found, unique_violation, Attempt, returns, throws, Registrar,
  M, ◌>>=◌, ◌>>◌, pure, throw, call, Tools, AssetRecord, AssetBundle, CredentialSignature,
  SigningInput, rows, with_rows, log, find_one_or_throw, resolve_id, on_producer,
}
use certiva.Lifecycle.Payload.{
  TokenInput, build_signed_verification_token, build_registry_proof_hash, build_credential_hash,
}
pub use certiva.Lifecycle.Issue.Content.{
  IssueInput, Draft, institution_of, token_input, draft_asset_record, signing_input,
}
unfoldable pub use certiva.Lifecycle.Issue.Content.{draft, new_credential}

-- The columns of schema.prisma that are unique.
unfoldable pub shares_unique : Credential → Credential → Bool
shares_unique new c =
    c.id === new.id
    || (c.credential_external_id === new.credential_external_id
        || (c.verification_id === new.verification_id
            || (c.verification_code === new.verification_code
                || (c.signed_verification_token === new.signed_verification_token
                    || (c.hash === new.hash
                        || (c.registry_hash === new.registry_hash
                            || c.chain_proof_hash === new.chain_proof_hash))))))

-- WHERE "deletedAt" IS NULL AND "revoked" = false
abbrev pub is_live : Credential → Bool
is_live c = not (is_some c.deleted_at) && not c.revoked

-- credential_issuer_student_degree_active_key of the migration 20260727100000
unfoldable pub shares_live_key : Credential → Credential → Bool
shares_live_key new c =
    (is_live c && is_live new)
    && (c.issuer.id === new.issuer.id
        && (c.student_id === new.student_id && c.degree === new.degree))

-- `credential.create`
unfoldable pub insert_credential : Credential → M Credential
insert_credential new s =
    if any_of (shares_unique new) (rows s)
    then (throws (unique_violation ("id" ∷ [])), s)
    else if any_of (shares_live_key new) (rows s)
    then (throws (unique_violation ("issuerId" ∷ "studentId" ∷ "degree" ∷ [])), s)
    else (returns new, with_rows (rows s ++ new ∷ []) s)

abbrev pub includes : String → List String → Bool
includes column columns = any_of (λ c. c === column) columns

-- `isActiveDuplicateError`
unfoldable pub is_active_duplicate_error : Exception → Bool
is_active_duplicate_error (unique_violation columns) =
    includes "issuerId" columns && (includes "studentId" columns && includes "degree" columns)
is_active_duplicate_error _ = false

abbrev pub already_exists : Exception
already_exists = conflict "A live credential already exists for this student ID and degree."

abbrev pub reported : Exception → Exception
reported e = if is_active_duplicate_error e then already_exists else e

-- The `catch` of the insertion: the assets are deleted, and the error is thrown again.
unfoldable pub on_failed_insert :
    Tools → Attempt Credential × Registrar → Attempt Credential × Registrar
unfolding is_active_duplicate_error
on_failed_insert t (returns c, s) = (returns c, s)
on_failed_insert t (throws e, s) =
    (do call (t.delete_assets t.new_credential_id); throw (reported e)) s

-- The `try` of the insertion, up to the `return` of a promise that it does not await.
unfoldable pub insert_and_enqueue : Tools → Credential → M Credential
unfolding insert_credential
insert_and_enqueue t new = do
  created ← insert_credential new
  on_producer (anchor_or_mark t.add created.id)
  pure created

-- The row that is returned is read outside the `catch`.
unfoldable pub store_credential : Tools → Credential → M Credential
unfolding insert_and_enqueue on_failed_insert
store_credential t new = do
  created ← λ s. on_failed_insert t (insert_and_enqueue t new s)
  find_one_or_throw created.id

unfoldable pub generated : Result AssetBundle → M AssetBundle
generated (ok bundle) = pure bundle
generated (err m) = throw (internal ("Unable to generate credential assets: " <> m))

abbrev pub required_issuer : Option Issuer → M Issuer
required_issuer none = throw (not_found "Institution configuration not found")
required_issuer (some i) = pure i

unfoldable pub read_issuer : String → M Issuer
unfolding find_issuer
read_issuer issuer_id s = required_issuer (find_issuer (some issuer_id) s.accounts.issuers) s

-- `issueCredentialRecord`
unfoldable pub issue_credential_record : Tools → String → IssueInput → M Credential
unfolding read_issuer store_credential generated draft new_credential
issue_credential_record t issuer_id input = do
  issuer ← read_issuer issuer_id
  let d = draft t issuer input
  signature ← call (t.sign_credential (signing_input t issuer input))
  bundle ← generated (t.generate_and_persist (draft_asset_record t issuer input d.token))
  store_credential t (new_credential t issuer input d signature bundle)

unfoldable pub create : Tools → JwtPayload → IssueInput → M Credential
unfolding issue_credential_record
create t admin input = do
  issuer_id ← resolve_id t.setting admin
  credential ← issue_credential_record t issuer_id input
  log "CREDENTIAL_ISSUED" admin (some credential.id)
  pure credential
