-- ===== src/Lifecycle/Tests.antt =====
-- The credential service on a registry of two credentials, and the theorems about it there.
use certiva.Prelude.{
  ◌++◌, filter_by, true, false, ◌≡◌, ◌⊎◌, refl, String, some, none, List, [], ◌∷◌, ok, err,
  find_first, eq_iff, length,
}
use certiva.Text.{collapse_spaces, trim, to_lower_case, is_hex64, is_space}
use certiva.Registry.{registry_code_lookup, Credential, tampered}
use certiva.Auth
use certiva.Auth.{Accounts, JwtPayload, owner, find_active_institution}
use certiva.Anchoring
use certiva.Anchoring.{has_id}
use certiva.Anchoring.Queue.{Job, revoke_job, anchor_or_mark, enqueue_anchor}
use certiva.Blockchain.{ProofRecord, to_bytes32_proof_hash, is_configured, read_proof}
use certiva.Blockchain.Verify.{Vouches, issuer_matches}
use certiva.Assets.{◌<>◌}
use certiva.Institution.{resolve_institution_for_admin, resolve_institution_id}
use certiva.Verification.{Db}
use certiva.Verification.Lookup.{status_of, not_deleted}
use certiva.Verification.Recording.{IsWellFormed}
use certiva.Verification.Reference.{
  ReferenceResponse, reference_query, resolve_credential_reference,
}
use certiva.Fixtures.{issuer, credential, node, config, env}
use certiva.Lifecycle.{
  returns, Registrar, Tools, UploadedFile, rows, find_one_or_throw, resolve_id, update_credential,
  log,
}
use certiva.Lifecycle.Rows.{IsSound, Apart}
use certiva.Lifecycle.Growth.{Grows}
use certiva.Lifecycle.Issue.{create, shares_unique, shares_live_key}
use certiva.Lifecycle.Payload.{build_canonical_credential_payload}
use certiva.Lifecycle.Revoke.{bulk_revoke, revoke}
use certiva.Lifecycle.Delete.{bulk_delete, remove}
use certiva.Lifecycle.SecurePdf.{hash_taken, register_document_proof}
use certiva.Lifecycle.Bulk.{bulk_issue}
use certiva.Lifecycle.BulkCounts.{Tallied, bulk_issue-Tallied}
use certiva.Lifecycle.Steps.{Steps, start, step, revoked, removed, created}
use certiva.Lifecycle.Life.{steps-Grows}
use certiva.Lifecycle.Rows.Within.{foreign}
use certiva.Lifecycle.Isolation.{bulk_isolated}
use certiva.Lifecycle.Completion.{Revoked, bulk_revoke-completes}
use certiva.Lifecycle.Final.{revoked_never_valid}
use certiva.Lifecycle.Revocation.Columns.{revocation, republished}
use certiva.Lifecycle.Revocation.{revocation_queued}
use certiva.Lifecycle.Anchored.{secured_anchored-tampered}
use certiva.Lifecycle.Fixtures.{
  budi, registry, two, bundle, tools, accepting, working, the_owner, reason, input,
}

budi-Apart : Apart budi credential
budi-Apart = record {
  ids = λ e. cc ((eq_iff "crd_2" "crd_1").1 e);
  keys = λ l m i s. cc ((eq_iff "18" "17").1 s);
}

two-IsSound : IsSound (rows two)
two-IsSound = record { orderly = (λ h. cc, (λ h. cc, tt)); pairwise = ((budi-Apart, tt), (tt, tt)) }

abbrev after_create : Registrar
after_create = (create working the_owner input two).1

abbrev after_revoke : Registrar
after_revoke = (revoke working the_owner "crd_1" reason after_create).1

abbrev after_remove : Registrar
after_remove = (remove working the_owner "crd_1" after_revoke).1

three_steps : Steps two after_remove
three_steps =
    step
      (step (step start (created working the_owner input))
        (revoked working the_owner "crd_1" reason))
      (removed working the_owner "crd_1")

steps-Grows_example : Grows two after_remove
steps-Grows_example = steps-Grows two after_remove two-IsSound three_steps

-- The registry once the first credential has been revoked, and after one more issuing.
abbrev gone : Credential
gone = record credential { revoked = true; revoked_at = some 1500 }

abbrev with_gone : Registrar
with_gone = registry (budi ∷ gone ∷ [])

with_gone-IsSound : IsSound (rows with_gone)
with_gone-IsSound = record {
  orderly = (λ h. cc, (λ h. refl, tt));
  pairwise = (
    (record { ids = budi-Apart.ids; keys = λ l m i s. cc ((eq_iff "18" "17").1 s) }, tt),
    (tt, tt),
  );
}

abbrev later : Registrar
later = (create working the_owner input with_gone).1

-- What a run of `create` unfolds.
created_rows : Unit {0}
unfolding create resolve_id resolve_institution_for_admin resolve_institution_id
    find_active_institution log Auth.log trim is_space find_one_or_throw Anchoring.has_id
    shares_unique build_canonical_credential_payload collapse_spaces shares_live_key anchor_or_mark
    enqueue_anchor Anchoring.persist_lifecycle_log Anchoring.update_credential
created_rows = tt

later_rows : length (rows later) ≡ 3
unfolding created_rows
later_rows = refl

bulk_issue-Tallied_example : Tallied two (
    bulk_issue
      (λ k. working)
      the_owner
      (record { csv = "Dewi,20,S1\nAni,17,S1"; commit = some true })
      two)
bulk_issue-Tallied_example =
    bulk_issue-Tallied (λ k. working) the_owner
      (record { csv = "Dewi,20,S1\nAni,17,S1"; commit = some true }) two

abbrev later_db : Db
later_db = record { credentials = rows later; verification_logs = [] }

later_db-IsWellFormed : IsWellFormed later_db
unfolding created_rows
later_db-IsWellFormed = record {
  distinct = (
    ((λ e. cc ((eq_iff "crd_1" "crd_2").1 e)), ((λ e. cc ((eq_iff "crd_3" "crd_2").1 e)), tt)),
    (((λ e. cc ((eq_iff "crd_3" "crd_1").1 e)), tt), (tt, tt)),
  );
  named = (refl, (refl, (refl, tt)));
}

gone_found : find_first (reference_query "vrf_1") later_db.credentials ≡ some gone
unfolding created_rows reference_query not_deleted
gone_found = refl

revoked_never_valid_example :
    (r : ReferenceResponse) × (after : Db) × (resolve_credential_reference
        (env false)
        2500
        "vrf_1"
        "ip"
        registry_code_lookup
        later_db
      ≡ ok (r, after))
    × (r.valid ≡ false)
unfolding has_id
revoked_never_valid_example =
    revoked_never_valid with_gone later "crd_1" gone with_gone-IsSound
      (step start (created working the_owner input)) refl refl (env false) 2500 "vrf_1" "ip"
      registry_code_lookup later_db gone refl later_db-IsWellFormed gone_found refl

revocation_queued_example :
    let d = republished bundle (revocation 2000 the_owner reason credential) in
    let marked : Credential = record d { chain_status = "REVOKE_ENQUEUE_FAILED" } in
    let (a, u) = revoke working the_owner "crd_1" reason two in
    (u.accounts.audit_log
      ≡ two.accounts.audit_log
        ++ record {
          action = "CREDENTIAL_REVOKED";
          actor_admin_id = some "adm_1";
          target_id = some "crd_1";
        }
          ∷ [])
    × (((jobs : List Job) × (ok (revoke_job "crd_1" ∷ []) ≡ ok jobs)
          × (u.producer.jobs ≡ jobs)
          × (find_first (has_id "crd_1") (rows u) ≡ some d)
          × (a ≡ returns d))
        ⊎ ((e : String) × (ok (revoke_job "crd_1" ∷ []) ≡ err e)
            × (u.producer.jobs ≡ two.producer.jobs)
            × (find_first (has_id "crd_1") (rows u) ≡ some marked)
            × (a ≡ returns marked)))
unfolding has_id
revocation_queued_example =
    revocation_queued working the_owner "crd_1" reason two credential refl refl bundle
      (ok (revoke_job "crd_1" ∷ [])) refl refl refl refl refl

abbrev full_disk : Tools
full_disk = tools accepting (err "disk")

abbrev pdf_digest : String
pdf_digest = "00000000000000000000000000000000000000000000000000000000000000bb"

abbrev pdf : UploadedFile
pdf = record { buffer = pdf_digest; mimetype = "application/pdf"; size = 3; originalname = none }

abbrev on_chain : ProofRecord
on_chain = record {
  credential_id = "crd_1";
  document_hash = "0x00000000000000000000000000000000000000000000000000000000000000aa";
  issuer = "0xA1";
  issuer_authorized = true;
  issued_at = some 3000;
  revoked = false;
  revoked_at = none;
  revoked_by = none;
  exists = true;
}

vouched : Vouches (node false) config credential on_chain
unfolding is_configured read_proof to_bytes32_proof_hash is_hex64 to_lower_case issuer_matches trim
vouched = record {
  configured = refl;
  read = refl;
  exists = refl;
  issuer = refl;
  hash = refl;
  authorized = refl;
  not_revoked = refl;
}

secured_anchored-tampered_example :
    (d : Credential) × (find_first
        (has_id "crd_1")
        (rows (register_document_proof working "crd_1" pdf "ani" two).1)
      ≡ some d)
    × (status_of (env false) d ≡ tampered)
unfolding has_id register_document_proof hash_taken to_bytes32_proof_hash is_hex64 to_lower_case
    trim update_credential
secured_anchored-tampered_example =
    secured_anchored-tampered working "crd_1" "ani" pdf two credential (env false) on_chain
      ("0x" <> pdf_digest) refl refl vouched refl refl
      (λ e. cc (
        (eq_iff "0x00000000000000000000000000000000000000000000000000000000000000aa"
            ("0x" <> pdf_digest)).1
          e))

-- A registry with a credential of another institution.
abbrev elsewhere : Credential
elsewhere = record budi { issuer = record issuer { id = "iss9"; domain = "verify.other.ac.id" } }

abbrev shared : Registrar
shared = registry (elsewhere ∷ credential ∷ [])

shared-IsSound : IsSound (rows shared)
shared-IsSound = record {
  orderly = (λ h. cc, (λ h. cc, tt));
  pairwise = (
    (record { ids = budi-Apart.ids; keys = λ l m i s. cc ((eq_iff "18" "17").1 s) }, tt),
    (tt, tt),
  );
}

abbrev asked : List String
asked = "crd_2" ∷ "crd_1" ∷ []

bulk_isolated_example :
    (filter_by (foreign "iss1") (rows (bulk_revoke (λ k. working) the_owner asked reason shared).1)
      ≡ filter_by (foreign "iss1") (rows shared))
    × (filter_by (foreign "iss1") (rows (bulk_delete (λ k. working) the_owner asked shared).1)
        ≡ filter_by (foreign "iss1") (rows shared))
unfolding created_rows
bulk_isolated_example =
    bulk_isolated (λ k. working) the_owner asked reason shared shared "iss1" shared-IsSound refl

bulk_revoke-completes_example :
    Revoked "crd_1" (rows (bulk_revoke (λ k. working) the_owner asked reason shared).1)
unfolding created_rows
bulk_revoke-completes_example =
    bulk_revoke-completes (λ k. working) the_owner asked reason shared shared "iss1" "crd_1"
      credential shared-IsSound refl (λ k. refl) refl refl refl
