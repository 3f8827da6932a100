-- ===== src/Verification/Tests.antt =====
-- The endpoints on a registry of two credentials, and the theorems about them there.
use certiva.Prelude.{
  ◌+◌, true, false, ◌≡◌, ◌≢◌, ◌↔◌, ◌⊎◌, ◌||◌, ◌&&◌, refl, Option, some, none, ok, arith, eq_iff,
  Result, find_first,
}
use certiva.Registry.{
  Credential, VerificationStatus, valid, tampered, invalid, revoked, registry_code_lookup,
  integrity_verified, document_modified,
}
use certiva.Blockchain.{is_configured, read_proof, to_bytes32_proof_hash}
use certiva.Blockchain.Verify.{verify_record, verify_proof, verify_with_proof}
use certiva.Verification.{
  Db, build_signature_block, signature_valid, is_active, mismatched, revoked_on_chain,
  resolve_status, record_verification,
}
use certiva.Verification.Recording.{Answers, is_found, IsWellFormed}
use certiva.Verification.Status.{valid_iff, verdict_iff, revoked_on_chain-tampered}
use certiva.Verification.Lookup.{VerifyDto, verify_query, status_of, status_or_not_found, verify}
use certiva.Verification.Lookups.{verify-Answers, reference-Answers, reference-valid_iff}
use certiva.Verification.Reference.{
  ReferenceResponse, reference_query, resolve_credential_reference,
}
use certiva.Verification.SecurePdf.{
  pdf_query, build_secure_pdf_response, find_referenced, verify_secure_pdf, active_proof,
}
use certiva.Verification.Integrity.{Checks, verify_secure_pdf-Checks}
use certiva.Verification.Export.{
  ProofBundle, get_credential_proof, get_credential_vc, export_query, proof-offline,
}
use certiva.Verification.Lookup.{not_deleted}
use certiva.Fixtures.{credential, env, db}
use certiva.Text.{is_hex64, to_lower_case, trim}

-- What a run of an endpoint unfolds.
run : Unit {0}
unfolding verify_record verify_proof verify_with_proof is_configured read_proof
    to_bytes32_proof_hash is_hex64 to_lower_case trim status_of resolve_status build_signature_block
    record_verification verify resolve_credential_reference verify_secure_pdf active_proof
    reference_query verify_query not_deleted get_credential_proof get_credential_vc find_referenced
    export_query status_or_not_found pdf_query build_secure_pdf_response
run = tt

db-IsWellFormed : IsWellFormed db
db-IsWellFormed = record {
  distinct = ((ground (arith, eq_iff "crd_1" "crd_2"), tt), (tt, tt));
  named = (refl, (refl, tt));
}

abbrev by_id : VerifyDto
by_id = record { credential_id = some "crd_1"; hash = none; issuer_domain = none }

abbrev verdict_of :
    {R : Type 0} → (R → VerificationStatus) → Result (R × Db) → Option VerificationStatus
verdict_of f (ok (r, _)) = some (f r)
verdict_of f _ = none

verdicts :
    (verdict_of (λ r. r.result) (verify (env false) 9 by_id "ip" db) ≡ some valid)
    × (verdict_of (λ r. r.result) (verify (env true) 9 by_id "ip" db) ≡ some tampered)
    × (verdict_of (λ r. r.status) (verify_secure_pdf (env false) 9 "pdf" (some "vrf_1") "ip" db)
        ≡ some integrity_verified)
    × (verdict_of (λ r. r.status) (verify_secure_pdf (env false) 9 "pdf2" (some "vrf_1") "ip" db)
        ≡ some document_modified)
    × (verdict_of (λ r. r.status) (verify_secure_pdf (env true) 9 "pdf" (some "vrf_1") "ip" db)
        ≡ some revoked)
unfolding run
verdicts = (refl, refl, refl, refl, refl)

valid_iff_example : (resolve_status credential none (some true) ≡ valid) ↔ (
    (is_active credential.issuer.status ≡ true)
    × (mismatched none ≡ false)
    × (revoked_on_chain none ≡ false)
    × (credential.revoked ≡ false)
    × (some true ≢ some false))
valid_iff_example = valid_iff credential none (some true)

verdict_iff_example :
    ((resolve_status credential none (some false) ≡ invalid)
      ↔ (is_active credential.issuer.status ≡ false))
    × ((resolve_status credential none (some false) ≡ revoked) ↔ (
        (is_active credential.issuer.status ≡ true)
        × (mismatched none ≡ false)
        × ((revoked_on_chain none || credential.revoked) ≡ true)))
    × ((resolve_status credential none (some false) ≡ tampered) ↔ (
        (is_active credential.issuer.status ≡ true)
        × ((mismatched none ≡ true)
            ⊎ (((revoked_on_chain none || credential.revoked) ≡ false)
                × (some false ≡ some false)))))
verdict_iff_example = verdict_iff credential none (some false)

revoked_on_chain-tampered_example : status_of (env true) credential ≡ tampered
unfolding run
revoked_on_chain-tampered_example =
    revoked_on_chain-tampered (env true) credential _ true _ refl refl refl refl refl refl refl refl

verify-Answers_example :
    Answers
      (λ r. r.result)
      (λ _. is_found (find_first (verify_query by_id) db.credentials))
      (find_first (verify_query by_id) db.credentials)
      db
      (verify (env false) 9 by_id "ip" db)
verify-Answers_example = verify-Answers (env false) 9 by_id "ip" db db-IsWellFormed refl

reference-Answers_example :
    Answers
      (λ r. r.result)
      (λ _. is_found (find_first (reference_query "CV-1") db.credentials))
      (find_first (reference_query "CV-1") db.credentials)
      db
      (resolve_credential_reference (env false) 9 "CV-1" "ip" registry_code_lookup db)
reference-Answers_example =
    reference-Answers (env false) 9 "CV-1" "ip" registry_code_lookup db db-IsWellFormed

verify_secure_pdf-Checks_example :
    Checks
      (env false)
      "pdf"
      (find_referenced (some "vrf_1") db)
      db
      (verify_secure_pdf (env false) 9 "pdf" (some "vrf_1") "ip" db)
verify_secure_pdf-Checks_example =
    verify_secure_pdf-Checks (env false) 9 "pdf" (some "vrf_1") "ip" db db-IsWellFormed

reference-valid_iff_example :
    (r : ReferenceResponse) × (after : Db) × (resolve_credential_reference
        (env false)
        9
        "CV-1"
        "ip"
        registry_code_lookup
        db
      ≡ ok (r, after))
    × ((r.valid ≡ true) ↔ (
        (is_active credential.issuer.status ≡ true)
        × (mismatched (some (verify_record (env false).rpc (env false).config credential)) ≡ false)
        × (revoked_on_chain (some (verify_record (env false).rpc (env false).config credential))
            ≡ false)
        × (credential.revoked ≡ false)
        × (signature_valid (build_signature_block (env false).verify_ed25519 credential)
            ≢ some false)))
    × (r.verification_count ≡ credential.verification_count + 1)
    × (r.verified_at ≡ some 9)
unfolding run
reference-valid_iff_example =
    reference-valid_iff (env false) 9 "CV-1" "ip" registry_code_lookup db credential db-IsWellFormed
      refl

abbrev exported : ProofBundle
exported = record {
  credential_id = "crd_1";
  issuer_domain = "verify.univ.ac.id";
  issuer_name = "Univ";
  anchored = false;
  chain_id = none;
  tx_hash = none;
  anchored_at = none;
  public_payload = "payload";
  signature = "good";
  signature_algorithm = "Ed25519";
  signing_key_id = "sk_1";
  public_key = "pk";
}

proof-offline_example :
    (c : Credential) × (find_first (λ d. not_deleted d && export_query "crd_1" d) db.credentials
      ≡ some c)
    × (build_signature_block (env false).verify_ed25519 c
        ≡ some (record {
          algorithm = exported.signature_algorithm;
          signing_key_id = exported.signing_key_id;
          public_key = exported.public_key;
          signature_valid =
              (env false).verify_ed25519 exported.public_payload exported.signature
                exported.public_key;
        }))
unfolding run
proof-offline_example = proof-offline (env false).verify_ed25519 db "crd_1" exported refl
