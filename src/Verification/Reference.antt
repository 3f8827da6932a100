-- ===== src/Verification/Reference.antt =====
-- `resolveCredentialReference` of apps/api/src/modules/verification/verification.service.ts and the
-- endpoints that call it: by verification id, by code, and by the reference read from a PDF.
use certiva.Prelude.{
  ℕ, Bool, true, false, ◌&&◌, ◌||◌, String, Option, none, some, List, Result, ok, ◌>>=◌, find_first,
  ◌===◌, if◌then◌else◌, truthy, or_else, or_try,
}
use certiva.Registry.{
  Issuer, Credential, EventType, registry_code_lookup, qr_lookup, VerificationStatus, valid,
  not_found, VerificationLog,
}
use certiva.Blockchain.{ProofStatus, not_anchored, VerificationResult}
use certiva.Blockchain.Verify.{verify_record}
use certiva.Assets.{
  resolve_metadata_uri, resolve_qr_code_uri, resolve_certificate_uri, resolve_verification_url,
}
use certiva.Verification.{
  Env, Db, SignatureBlock, build_signature_block, TrustCheck, build_trust_checks,
  record_verification,
}
use certiva.Verification.Lookup.{not_deleted, status_of}

pub record ReferenceResponse : Type 0 where
  pub credential_external_id : Option String
  pub verification_id : Option String
  pub verification_mode : Option String
  pub secure_pdf_enabled : Bool
  pub valid : Bool
  pub result : VerificationStatus
  pub revoked : Bool
  pub revocation_reason : Option String
  pub metadata_uri : Option String
  pub qr_code_uri : Option String
  pub certificate_uri : Option String
  pub verification_url : Option String
  pub verification_count : ℕ
  pub verified_at : Option ℕ
  pub issuer : Option Issuer
  pub degree : Option String
  pub issued_at : Option ℕ
  pub revoked_at : Option ℕ
  pub blockchain_verified : Bool
  pub blockchain_status : ProofStatus
  pub tx_hash : Option String
  pub block_number : Option ℕ
  pub anchored_at : Option ℕ
  pub trust_checks : List TrustCheck
  pub verified_at_timestamp : ℕ
  pub credential : Option (String × String)
  pub signature : Option SignatureBlock

unfoldable pub not_found_response : ℕ → ReferenceResponse
not_found_response now = record {
  credential_external_id = none;
  verification_id = none;
  verification_mode = none;
  secure_pdf_enabled = false;
  valid = false;
  result = not_found;
  revoked = false;
  revocation_reason = none;
  metadata_uri = none;
  qr_code_uri = none;
  certificate_uri = none;
  verification_url = none;
  verification_count = 0;
  verified_at = none;
  issuer = none;
  degree = none;
  issued_at = none;
  revoked_at = none;
  blockchain_verified = false;
  blockchain_status = not_anchored;
  tx_hash = none;
  block_number = none;
  anchored_at = none;
  trust_checks = build_trust_checks none none;
  verified_at_timestamp = now;
  credential = none;
  signature = none;
}

-- `status === 'VALID'`
abbrev pub is_valid : VerificationStatus → Bool
is_valid valid = true
is_valid _ = false

unfoldable pub found_response :
    Env
    → ℕ
    → VerificationStatus
    → VerificationResult
    → Option SignatureBlock
    → Credential
    → ReferenceResponse
found_response env now status chain signature c = record {
  credential_external_id = some c.credential_external_id;
  verification_id = some c.verification_id;
  verification_mode = some c.verification_mode;
  secure_pdf_enabled = c.secure_pdf_enabled;
  valid = is_valid status;
  result = status;
  revoked = c.revoked;
  revocation_reason = c.revocation_reason;
  metadata_uri = some (resolve_metadata_uri env.assets c.id (some c.metadata_uri));
  qr_code_uri = some (resolve_qr_code_uri env.assets c.id (some c.qr_code_uri));
  certificate_uri = some (resolve_certificate_uri env.assets c.verification_id c.certificate_uri);
  verification_url =
      some (resolve_verification_url env.assets c.credential_external_id (some c.verification_url));
  verification_count = c.verification_count;
  verified_at = c.verified_at;
  issuer = some c.issuer;
  degree = some c.degree;
  issued_at = some c.issued_at;
  revoked_at = c.revoked_at;
  blockchain_verified = chain.blockchain_verified;
  blockchain_status = chain.blockchain_status;
  tx_hash = or_try chain.tx_hash c.tx_hash;
  block_number = or_try chain.block_number c.block_number;
  anchored_at = or_try chain.anchored_at c.anchored_at;
  trust_checks = build_trust_checks (some c) (some chain);
  verified_at_timestamp = now;
  credential = some (c.id, c.student_name);
  signature = signature;
}

unfoldable pub reference_query : String → Credential → Bool
reference_query reference c =
    not_deleted c
    && (c.credential_external_id === reference
        || (c.verification_id === reference
            || (c.verification_code === reference || c.signed_verification_token === reference)))

-- The log row of a lookup by reference.
abbrev pub lookup_log :
    Option String → EventType → Bool → VerificationStatus → String → ℕ → VerificationLog
lookup_log id event matched status ip now = record {
  credential_id = id;
  event_type = event;
  uploaded_hash = none;
  matched = matched;
  status = status;
  ip_address = ip;
  created_at = now;
}

unfoldable pub resolve_missing : ℕ → String → EventType → Db → Result (ReferenceResponse × Db)
resolve_missing now ip event db = do
  written ← record_verification db (lookup_log none event false not_found ip now)
  ok (not_found_response now, written.1)

unfoldable pub resolve_found :
    Env → ℕ → String → EventType → Db → Credential → Result (ReferenceResponse × Db)
resolve_found env now ip event db c = do
  let status = status_of env c
  written ← record_verification db (lookup_log (some c.id) event true status ip now)
  ok (
    found_response env now status (verify_record env.rpc env.config c)
        (build_signature_block env.verify_ed25519 c) (or_else written.0 c),
    written.1,
  )

unfoldable pub resolve_credential_reference :
    Env → ℕ → String → String → EventType → Db → Result (ReferenceResponse × Db)
unfolding resolve_missing resolve_found
resolve_credential_reference env now reference ip event db =
    elim (find_first (reference_query reference) db.credentials) [
      | none ↦ resolve_missing now ip event db
      | some c ↦ resolve_found env now ip event db c
    ]

unfoldable pub verify_by_verification_id :
    Env → ℕ → String → String → Db → Result (ReferenceResponse × Db)
verify_by_verification_id env now id ip db =
    resolve_credential_reference env now id ip registry_code_lookup db

unfoldable pub verify_credential_code :
    Env → ℕ → String → String → Db → Result (ReferenceResponse × Db)
verify_credential_code env now reference ip db =
    resolve_credential_reference env now reference ip registry_code_lookup db

-- `verifyCredentialPdf`, once the upload has been accepted and its reference extracted; the
-- response carries that reference.
unfoldable pub verify_credential_pdf :
    Env → ℕ → Option String → String → Db → Result ((ReferenceResponse × Option String) × Db)
unfolding resolve_missing
verify_credential_pdf env now none ip db = do
  r ← resolve_missing now ip qr_lookup db
  ok ((r.0, none), r.1)
verify_credential_pdf env now (some reference) ip db =
    if truthy (some reference)
    then (do
      r ← resolve_credential_reference env now reference ip qr_lookup db
      ok ((r.0, some reference), r.1))
    else (do r ← resolve_missing now ip qr_lookup db; ok ((r.0, none), r.1))
