-- ===== src/Lifecycle/Anchored.antt =====
-- `registerDocumentProof` of apps/api/src/modules/credential/credential.service.ts on a credential that
-- has been anchored: the proof hash of the row changes, and the chain keeps the old one.
use certiva.Prelude.{
  true, false, ◌≡◌, ◌≢◌, refl, ap, ◌∙◌, inl, inr, String, some, ok, ◌===◌, eq_iff, find_first,
  find_first-update_where, any_of, Bool-cases, arith,
}
use certiva.Registry.{Credential, Issuer, active, tampered}
use certiva.Anchoring
use certiva.Anchoring.{has_id}
use certiva.Blockchain.{
  ProofRecord, VerificationResult, read_proof, mismatch, to_bytes32_proof_hash,
}
use certiva.Blockchain.Verify.{
  Vouches, issuer_matches, verify_record, with_proof, is_verified, proof_status,
}
use certiva.Blockchain.Vouching.{verify_record_ok, verify_proof_exists, verify_with_proof_ok}
use certiva.Verification.{Env, is_active, is_mismatch}
use certiva.Verification.Lookup.{status_of}
use certiva.Verification.Status.{verdict_iff}
use certiva.Lifecycle.{returns, Registrar, Tools, UploadedFile, rows, update_credential}
use certiva.Lifecycle.SecurePdf.{secured_row, hash_taken, register_document_proof}

-- A registration that returns has written the row.
registered_row :
    (t : Tools) (id by : String) (file : UploadedFile) (s : Registrar) (c : Credential)
    → find_first (has_id id) (rows s) ≡ some c
    → (register_document_proof t id file by s).0 ≡ returns tt
    → find_first (has_id id) (rows (register_document_proof t id file by s).1)
      ≡ some (secured_row t.now by file (t.hash_buffer file.buffer) c)
unfolding register_document_proof update_credential Anchoring.update_credential
registered_row t id by file s c found e =
    elim (Bool-cases (any_of (hash_taken id (t.hash_buffer file.buffer)) (rows s))) [
      | inl taken ↦ cc (simp taken at e)
      | inr free ↦ simp free (
          find_first-update_where (has_id id)
            (secured_row t.now by file (t.hash_buffer file.buffer)) (rows s) c
            (λ d h. unfold has_id secured_row in h) found)
    ]

-- The chain's answer on a row whose proof hash is not the one on chain.
other_hash-mismatch :
    (env : Env) (c d : Credential) (proof : ProofRecord) (h : String)
    → d.id ≡ c.id
    → d.issuer ≡ c.issuer
    → Vouches env.rpc env.config c proof
    → to_bytes32_proof_hash d.chain_proof_hash ≡ ok h
    → (proof.document_hash === h) ≡ false
    → (verify_record env.rpc env.config d).blockchain_status ≡ mismatch
unfolding with_proof is_verified proof_status
other_hash-mismatch env c d proof h i j v p n =
    let read : read_proof env.rpc env.config d.id ≡ ok (some proof) = rw i (v.read) in
    let same : issuer_matches env.rpc d.issuer.wallet proof ≡ ok true =
      ap (λ (x : Issuer). issuer_matches env.rpc x.wallet proof) j ∙ v.issuer in
    let answer = verify_record_ok env.rpc env.config d (some proof) _ v.configured read (
      verify_proof_exists env.rpc env.config d proof v.exists
      ∙ verify_with_proof_ok env.rpc env.config d proof true h same p) in
    ap (λ (r : VerificationResult). r.blockchain_status) answer ∙ rw (n, v.authorized) refl

other_hash-tampered :
    (env : Env) (c d : Credential) (proof : ProofRecord) (h : String)
    → d.id ≡ c.id
    → d.issuer ≡ c.issuer
    → c.issuer.status ≡ active
    → Vouches env.rpc env.config c proof
    → to_bytes32_proof_hash d.chain_proof_hash ≡ ok h
    → proof.document_hash ≢ h
    → status_of env d ≡ tampered
unfolding status_of
other_hash-tampered env c d proof h i j on v p n =
    let differs : (proof.document_hash === h) ≡ false =
      ground (arith, n, eq_iff proof.document_hash h) in
    (verdict_iff d _ _).2.1 (
      ap (λ (x : Issuer). is_active x.status) j ∙ ap is_active on,
      inl (ap is_mismatch (other_hash-mismatch env c d proof h i j v p differs)),
    )

-- A credential that the chain vouches for, of an active issuer, is reported TAMPERED once a secure
-- PDF has been registered for it: the registration overwrites the proof hash of the row with the hash
-- of the PDF, unless that happens to be the hash on chain.
pub secured_anchored-tampered :
    (t : Tools) (id by : String) (file : UploadedFile) (s : Registrar) (c : Credential) (env : Env)
    (proof : ProofRecord) (h : String)
    → find_first (has_id id) (rows s) ≡ some c
    → c.issuer.status ≡ active
    → Vouches env.rpc env.config c proof
    → (register_document_proof t id file by s).0 ≡ returns tt
    → to_bytes32_proof_hash (t.hash_buffer file.buffer) ≡ ok h
    → proof.document_hash ≢ h
    → (d : Credential) × (find_first (has_id id) (rows (register_document_proof t id file by s).1)
        ≡ some d)
      × (status_of env d ≡ tampered)
unfolding secured_row
secured_anchored-tampered t id by file s c env proof h found on v e p n = (
  secured_row t.now by file (t.hash_buffer file.buffer) c,
  registered_row t id by file s c found e,
  other_hash-tampered env c _ proof h refl refl on v p n,
)
