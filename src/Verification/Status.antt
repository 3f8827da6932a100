-- ===== src/Verification/Status.antt =====
-- What each verdict of `resolveStatus` means, and how a revocation on chain is reported.
use certiva.Prelude.{
  Bool, true, false, ◌||◌, ◌≡◌, ◌≢◌, ◌↔◌, ◌⊎◌, inl, ap, Option, some, String, ok, arith,
}
use certiva.Registry.{active, Credential, valid, invalid, revoked, tampered}
use certiva.Blockchain.{
  ProofRecord, VerificationResult, is_configured, read_proof, to_bytes32_proof_hash,
}
use certiva.Blockchain.Verify.{issuer_matches}
use certiva.Blockchain.Vouching.{revoked_proof-mismatch}
use certiva.Verification.{Env, is_active, is_mismatch, mismatched, revoked_on_chain, resolve_status}
use certiva.Verification.Lookup.{status_of}

-- A credential is VALID exactly when its issuer is active, the chain's answer is not a mismatch,
-- neither the chain nor the row has it revoked, and no signature failed to verify.
pub valid_iff :
    (c : Credential) (v : Option VerificationResult) (s : Option Bool)
    → (resolve_status c v s ≡ valid) ↔ (
        (is_active c.issuer.status ≡ true)
        × (mismatched v ≡ false)
        × (revoked_on_chain v ≡ false)
        × (c.revoked ≡ false)
        × (s ≢ some false))
unfolding resolve_status
valid_iff c v s = ground arith

-- The other verdicts: INVALID is the issuer's, TAMPERED a mismatch or a failed signature of an
-- unrevoked credential, REVOKED a revocation of a credential that the chain does not contradict.
pub verdict_iff :
    (c : Credential) (v : Option VerificationResult) (s : Option Bool)
    → ((resolve_status c v s ≡ invalid) ↔ (is_active c.issuer.status ≡ false))
      × ((resolve_status c v s ≡ revoked) ↔ (
          (is_active c.issuer.status ≡ true)
          × (mismatched v ≡ false)
          × ((revoked_on_chain v || c.revoked) ≡ true)))
      × ((resolve_status c v s ≡ tampered) ↔ (
          (is_active c.issuer.status ≡ true)
          × ((mismatched v ≡ true)
              ⊎ (((revoked_on_chain v || c.revoked) ≡ false) × (s ≡ some false)))))
unfolding resolve_status
verdict_iff c v s = (ground arith, ground arith, ground arith)

-- A credential that its authorised issuer revoked on chain is reported TAMPERED, not REVOKED,
-- whether or not its row is revoked too: with an active issuer, the blockchain configured, and a
-- stored wallet and proof hash that are well formed.
pub revoked_on_chain-tampered :
    (env : Env) (c : Credential) (proof : ProofRecord) (b : Bool) (h : String)
    → c.issuer.status ≡ active
    → is_configured env.config ≡ true
    → read_proof env.rpc env.config c.id ≡ ok (some proof)
    → proof.exists ≡ true
    → issuer_matches env.rpc c.issuer.wallet proof ≡ ok b
    → to_bytes32_proof_hash c.chain_proof_hash ≡ ok h
    → proof.issuer_authorized ≡ true
    → proof.revoked ≡ true
    → status_of env c ≡ tampered
unfolding status_of
revoked_on_chain-tampered env c proof b h is_on e r x i p a v =
    let (m, n, o) = revoked_proof-mismatch env.rpc env.config c proof b h e r x i p a v in
    (verdict_iff c _ _).2.1 (ap is_active is_on, inl (ap is_mismatch m))
