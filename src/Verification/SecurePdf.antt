-- ===== src/Verification/SecurePdf.antt =====
-- `verifySecurePdf` of apps/api/src/modules/verification/verification.service.ts: the integrity check
-- of an uploaded PDF, once the upload has been accepted and its reference extracted.
use certiva.Prelude.{
  ℕ, Bool, true, false, ◌&&◌, ◌||◌, not, String, Option, none, some, List, [], ◌∷◌, Result, ok,
  ◌>>=◌, find_first, filter_by, ◌===◌, leb, if◌then◌else◌, truthy, or_else, or_try,
}
use certiva.Registry.{
  Credential, DocumentProof, active, pdf_integrity_check, VerificationStatus, not_found,
  integrity_verified, document_modified, no_secure_pdf_record, VerificationLog,
}
use certiva.Blockchain.{ProofStatus, not_anchored, VerificationResult}
use certiva.Blockchain.Verify.{verify_record}
use certiva.Verification.{
  Env, Db, TrustCheck, build_trust_checks, revoked_on_chain, record_verification,
}
use certiva.Verification.Lookup.{not_deleted}

pub record PdfResponse : Type 0 where
  pub status : VerificationStatus
  pub credential_id : Option String
  pub verification_id : Option String
  pub resolved_reference : Option String
  pub from_qr : Bool
  pub student_name : Option String
  pub institution : Option String
  pub degree : Option String
  pub issued_at : Option ℕ
  pub verification_timestamp : Option ℕ
  pub verification_count : Option ℕ
  pub blockchain_verified : Bool
  pub blockchain_status : ProofStatus
  pub tx_hash : Option String
  pub block_number : Option ℕ
  pub anchored_at : Option ℕ
  pub document_hash : Option String
  pub uploaded_hash : Option String
  pub integrity_matched : Bool
  pub trust_checks : List TrustCheck

abbrev pub is_active_proof : DocumentProof → Bool
is_active_proof p = elim p.status [ active ↦ true | _ ↦ false ]

-- The newest of the proofs, as `orderBy: { registeredAt: 'desc' }, take: 1` picks it.
newest : List DocumentProof → Option DocumentProof
newest [] = none
newest (p ∷ ps) = elim (newest ps) [
  | none ↦ some p
  | some q ↦ if leb q.registered_at p.registered_at then some p else some q
]

-- `credential.documentProofs[0] ?? null`
unfoldable pub active_proof : Credential → Option DocumentProof
unfolding newest
active_proof c = newest (filter_by is_active_proof c.document_proofs)

unfoldable pub pdf_query : String → Credential → Bool
pdf_query reference c =
    not_deleted c
    && (c.verification_id === reference
        || (c.verification_code === reference || c.signed_verification_token === reference))

-- `reference ? findFirst(...) : null`
unfoldable pub find_referenced : Option String → Db → Option Credential
find_referenced none db = none
find_referenced (some reference) db =
    if truthy (some reference) then find_first (pdf_query reference) db.credentials else none

-- `buildSecurePdfResponse`: the hashes are shown only when they matched.
unfoldable pub build_secure_pdf_response :
    Credential
    → VerificationResult
    → ℕ
    → String
    → Option String
    → Bool
    → VerificationStatus
    → String
    → PdfResponse
build_secure_pdf_response c chain now uploaded registered matched status reference = record {
  status = status;
  credential_id = some c.id;
  verification_id = some c.verification_id;
  resolved_reference = some reference;
  from_qr = true;
  student_name = some c.student_name;
  institution = some (or_else c.issuer.display_name c.issuer.name);
  degree = some c.degree;
  issued_at = some c.issued_at;
  verification_timestamp = some now;
  verification_count = some c.verification_count;
  blockchain_verified = chain.blockchain_verified;
  blockchain_status = chain.blockchain_status;
  tx_hash = or_try chain.tx_hash c.tx_hash;
  block_number = or_try chain.block_number c.block_number;
  anchored_at = or_try chain.anchored_at c.anchored_at;
  document_hash = if matched then registered else none;
  uploaded_hash = if matched then some uploaded else none;
  integrity_matched = matched;
  trust_checks = build_trust_checks (some c) (some chain);
}

unfoldable pub pdf_not_found : Option String → PdfResponse
pdf_not_found reference = record {
  status = not_found;
  credential_id = none;
  verification_id = none;
  resolved_reference = reference;
  from_qr = truthy reference;
  student_name = none;
  institution = none;
  degree = none;
  issued_at = none;
  verification_timestamp = none;
  verification_count = none;
  blockchain_verified = false;
  blockchain_status = not_anchored;
  tx_hash = none;
  block_number = none;
  anchored_at = none;
  document_hash = none;
  uploaded_hash = none;
  integrity_matched = false;
  trust_checks = build_trust_checks none none;
}

-- The row of a PDF check.
abbrev pub pdf_log :
    Option String → Bool → VerificationStatus → String → String → ℕ → VerificationLog
pdf_log id matched status uploaded ip now = record {
  credential_id = id;
  event_type = pdf_integrity_check;
  uploaded_hash = some uploaded;
  matched = matched;
  status = status;
  ip_address = ip;
  created_at = now;
}

-- Records a verdict on a found credential and answers with the updated row.
unfoldable pub conclude :
    Env
    → ℕ
    → String
    → Db
    → Credential
    → String
    → String
    → Option String
    → Bool
    → VerificationStatus
    → Result (PdfResponse × Db)
conclude env now ip db c uploaded reference registered matched status = do
  written ← record_verification db (pdf_log (some c.id) matched status uploaded ip now)
  ok (
    build_secure_pdf_response (or_else written.0 c) (verify_record env.rpc env.config c) now
        uploaded registered matched status reference,
    written.1,
  )

-- The branch without a registered PDF answers with the row that was read before the count.
unfoldable pub conclude_without_record :
    Env → ℕ → String → Db → Credential → String → String → Result (PdfResponse × Db)
conclude_without_record env now ip db c uploaded reference = do
  written ← record_verification db (pdf_log (some c.id) false no_secure_pdf_record uploaded ip now)
  ok (
    build_secure_pdf_response c (verify_record env.rpc env.config c) now uploaded none false
        no_secure_pdf_record reference,
    written.1,
  )

abbrev pub hash_of : Option DocumentProof → Option String
hash_of none = none
hash_of (some p) = some p.hash

-- The comparison with the registered PDF.
unfoldable pub compare_document :
    Env
    → ℕ
    → String
    → Db
    → Credential
    → String
    → String
    → Option DocumentProof
    → Result (PdfResponse × Db)
unfolding conclude conclude_without_record
compare_document env now ip db c uploaded reference none =
    conclude_without_record env now ip db c uploaded reference
compare_document env now ip db c uploaded reference (some proof) =
    if not (proof.hash === uploaded)
    then conclude env now ip db c uploaded reference (some proof.hash) false document_modified
    else conclude env now ip db c uploaded reference (some proof.hash) true integrity_verified

unfoldable pub check_document :
    Env → ℕ → String → Db → String → Option String → Option Credential → Result (PdfResponse × Db)
unfolding compare_document
check_document env now ip db uploaded reference none = do
  written ← record_verification db (pdf_log none false not_found uploaded ip now)
  ok (pdf_not_found reference, written.1)
check_document env now ip db uploaded reference (some c) =
    let resolved = or_else reference c.verification_id in
    if c.revoked || revoked_on_chain (some (verify_record env.rpc env.config c))
    then conclude env now ip db c uploaded resolved (hash_of (active_proof c)) false
        VerificationStatus.revoked
    else compare_document env now ip db c uploaded resolved (active_proof c)

-- `verifySecurePdf`
unfoldable pub verify_secure_pdf :
    Env → ℕ → String → Option String → String → Db → Result (PdfResponse × Db)
unfolding check_document find_referenced
verify_secure_pdf env now buffer reference ip db =
    check_document env now ip db (env.hash_buffer buffer) reference (find_referenced reference db)
