-- ===== src/Lifecycle/SecurePdf.antt =====
-- `registerSecurePdf`, `registerBatchSecurePdf`, `registerDocumentProof` and
-- `findByVerificationReference` of apps/api/src/modules/credential/credential.service.ts.
use certiva.Prelude.{
  ℕ, Bool, true, false, not, ◌&&◌, ◌||◌, String, Option, none, some, List, [], ◌∷◌, ◌++◌, ◌===◌,
  if◌then◌else◌, find_first, update_where, any_of, or_else, truthy, eq_some,
}
use certiva.Text.{trim}
use certiva.Registry.{Credential, DocumentProof, ProofState, IssuanceBatch}
use certiva.Anchoring
use certiva.Auth.{JwtPayload}
use certiva.Lifecycle.{
  bad_request, not_found, unique_violation, throws, M, ◌>>=◌, ◌>>◌, pure, throw, check, call, Tools,
  UploadedFile, rows, update_credential, find_credential, assert_credential_access,
}

abbrev pub is_active_proof : DocumentProof → Bool
is_active_proof p = elim p.status [ ProofState.active ↦ true | _ ↦ false ]

abbrev pub superseded_proof : DocumentProof → DocumentProof
superseded_proof p = record p { status = ProofState.superseded }

abbrev pub has_hash : String → DocumentProof → Bool
has_hash hash p = p.hash === hash

-- What both branches of the upsert write.
unfoldable pub active_proof_of : ℕ → String → UploadedFile → String → DocumentProof
active_proof_of now registered_by file hash = record {
  hash = hash;
  status = ProofState.active;
  registered_at = now;
  registered_by = registered_by;
  file_name = or_else file.originalname "credential.pdf";
  file_size = file.size;
  mime_type = file.mimetype;
}

abbrev pub upsert_proof : DocumentProof → List DocumentProof → List DocumentProof
upsert_proof p proofs =
    if any_of (has_hash p.hash) proofs
    then update_where (has_hash p.hash) (λ _. p) proofs
    else proofs ++ p ∷ []

-- The three statements of the transaction, on the credential's row.
unfoldable pub secured_row : ℕ → String → UploadedFile → String → Credential → Credential
unfolding active_proof_of
secured_row now registered_by file hash c = record c {
  document_proofs =
      upsert_proof (active_proof_of now registered_by file hash)
        (update_where is_active_proof superseded_proof c.document_proofs);
  secure_pdf_enabled = true;
  verification_mode = "SECURE_PDF";
  document_hash = some hash;
  chain_proof_hash = hash;
  file_name = some (or_else file.originalname "credential.pdf");
  file_size = some file.size;
  mime_type = some file.mimetype;
}

-- `documentHash` and `chainProofHash` are unique columns.
unfoldable pub hash_taken : String → String → Credential → Bool
unfolding Anchoring.has_id
hash_taken id hash c =
    not (Anchoring.has_id id c) && (eq_some c.document_hash hash || c.chain_proof_hash === hash)

-- `registerDocumentProof`
unfoldable pub register_document_proof : Tools → String → UploadedFile → String → M (Unit {0})
unfolding hash_taken secured_row
register_document_proof t id file registered_by s =
    if any_of (hash_taken id (t.hash_buffer file.buffer)) (rows s)
    then (throws (unique_violation ("documentHash" ∷ [])), s)
    else update_credential id (secured_row t.now registered_by file (t.hash_buffer file.buffer)) s

unfoldable pub matches_reference : String → Credential → Bool
matches_reference reference c =
    c.verification_id === reference
    || (c.verification_code === reference || c.signed_verification_token === reference)

-- `findByVerificationReference`
unfoldable pub find_by_verification_reference : String → List Credential → Option Credential
unfolding matches_reference
find_by_verification_reference reference credentials =
    if truthy (some (trim reference))
    then find_first (matches_reference (trim reference)) credentials
    else none

abbrev pub required_reference : Option String → M String
required_reference none =
    throw (bad_request "Unable to read a verification reference from this PDF.")
required_reference (some reference) =
    if truthy (some reference)
    then pure reference
    else throw (bad_request "Unable to read a verification reference from this PDF.")

abbrev pub is_row : String → Option Credential → Bool
is_row id none = false
is_row id (some c) = c.id === id

-- The reference in the PDF leads to this credential.
unfoldable pub check_reference : String → String → M (Unit {0})
unfolding find_by_verification_reference
check_reference id reference s =
    check (is_row id (find_by_verification_reference reference (rows s)))
      (bad_request "The PDF verification reference does not match this credential.") s

unfoldable pub register_secure_pdf : Tools → JwtPayload → String → UploadedFile → M (Unit {0})
unfolding register_document_proof check_reference
register_secure_pdf t admin id file = do
  credential ← find_credential id
  assert_credential_access t.setting admin credential.issuer.id
  call (t.prepare_uploaded_pdf file)
  found ← call (t.extract_reference file.buffer)
  reference ← required_reference found
  check_reference credential.id reference
  register_document_proof t credential.id file admin.email

abbrev pub has_batch_id : String → IssuanceBatch → Bool
has_batch_id id b = b.id === id

unfoldable pub required_batch : Option IssuanceBatch → M IssuanceBatch
required_batch none = throw (not_found "Issuance batch not found")
required_batch (some b) = pure b

unfoldable pub find_batch : String → M IssuanceBatch
unfolding required_batch
find_batch id s = required_batch (find_first (has_batch_id id) s.batches) s

-- `registerBatchSecurePdf`: reserved, it never registers anything.
unfoldable pub register_batch_secure_pdf : Tools → JwtPayload → String → M (Unit {0})
unfolding find_batch
register_batch_secure_pdf t admin batch_id = do
  batch ← find_batch batch_id
  assert_credential_access t.setting admin batch.issuer_id
  throw (
      bad_request
        "Batch ZIP secure-PDF registration is reserved for the ZIP extraction worker. Register single PDFs from each issued credential for this v1 API path.")
