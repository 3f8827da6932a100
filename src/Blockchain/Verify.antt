-- ===== src/Blockchain/Verify.antt =====
-- `verifyRecord` of apps/api/src/modules/blockchain/blockchain.service.ts: the status of a
-- credential's on-chain proof. It never throws: what rejects inside is caught as `unavailable`.
use certiva.Prelude.{
  ℕ, Bool, true, false, not, ◌&&◌, ◌≡◌, String, Option, none, some, Result, ok, ◌>>=◌, catch, ◌===◌,
  if◌then◌else◌, truthy, or_try,
}
use certiva.Registry.{Credential}
use certiva.Blockchain.{
  ProofStatus, on_chain_verified, issuer_unauthorized, mismatch, not_anchored, archived_v1, failed,
  pending, unavailable, Rpc, Config, ProofRecord, VerificationResult, polygon_amoy_chain_id,
  to_bytes32_proof_hash, is_configured, read_proof,
}

-- The result with the stored columns of the credential and no proof.
unfoldable pub without_proof : Credential → ProofStatus → Option ℕ → VerificationResult
without_proof c status chain_id = record {
  blockchain_status = status;
  blockchain_verified = false;
  chain_id = chain_id;
  tx_hash = c.tx_hash;
  block_number = c.block_number;
  anchored_at = c.anchored_at;
  proof = none;
}

unfoldable pub verify_without_proof : Credential → VerificationResult
unfolding without_proof
verify_without_proof c =
    if c.anchor_version === "V1" && truthy c.tx_hash
    then without_proof c archived_v1 none
    else without_proof c
        (if c.anchor_status === "FAILED"
          then failed
          else if c.anchor_status === "PENDING"
          then pending
          else not_anchored)
        (some polygon_amoy_chain_id)

-- `record.issuer.wallet ? isAddressEqual(...) : false`
unfoldable pub issuer_matches : Rpc → Option String → ProofRecord → Result Bool
issuer_matches rpc none proof = ok false
issuer_matches rpc (some wallet) proof =
    if truthy (some wallet)
    then (do address ← rpc.get_address wallet; ok (rpc.is_address_equal proof.issuer address))
    else ok false

unfoldable pub proof_status : Bool → ProofRecord → ProofStatus
proof_status verified proof =
    if verified
    then on_chain_verified
    else if not proof.issuer_authorized
    then issuer_unauthorized
    else mismatch

-- `issuerMatches && hashMatches && proof.issuerAuthorized && !proof.revoked`
unfoldable pub is_verified : Bool → Bool → ProofRecord → Bool
is_verified same_issuer same_hash proof =
    same_issuer && (same_hash && (proof.issuer_authorized && not proof.revoked))

unfoldable pub with_proof : Credential → Bool → ProofRecord → VerificationResult
unfolding proof_status
with_proof c verified proof = record {
  blockchain_status = proof_status verified proof;
  blockchain_verified = verified;
  chain_id = some polygon_amoy_chain_id;
  tx_hash = c.tx_hash;
  block_number = c.block_number;
  anchored_at = or_try c.anchored_at proof.issued_at;
  proof = some proof;
}

unfoldable pub verify_with_proof : Rpc → Credential → ProofRecord → Result VerificationResult
unfolding with_proof issuer_matches is_verified
verify_with_proof rpc c proof = do
  same_issuer ← issuer_matches rpc c.issuer.wallet proof
  expected ← to_bytes32_proof_hash c.chain_proof_hash
  ok (with_proof c (is_verified same_issuer (proof.document_hash === expected) proof) proof)

-- `!proof?.exists`: a record that is read back always exists.
unfoldable pub verify_proof : Rpc → Credential → Option ProofRecord → Result VerificationResult
verify_proof rpc c none = ok (verify_without_proof c)
verify_proof rpc c (some proof) =
    if proof.exists then verify_with_proof rpc c proof else ok (verify_without_proof c)

unfoldable pub verify_record : Rpc → Config → Credential → VerificationResult
unfolding without_proof
verify_record rpc cfg c =
    if is_configured cfg
    then catch (do proof ← read_proof rpc cfg c.id; verify_proof rpc c proof)
        (λ _. without_proof c unavailable none)
    else without_proof c (if c.anchor_status === "PENDING" then pending else unavailable) none

-- What it takes for the chain to vouch for a stored credential.
pub record Vouches (rpc : Rpc) (cfg : Config) (c : Credential) (proof : ProofRecord) : Type 0 where
  pub configured : is_configured cfg ≡ true
  pub read : read_proof rpc cfg c.id ≡ ok (some proof)
  pub exists : proof.exists ≡ true
  pub issuer : issuer_matches rpc c.issuer.wallet proof ≡ ok true
  pub hash : to_bytes32_proof_hash c.chain_proof_hash ≡ ok proof.document_hash
  pub authorized : proof.issuer_authorized ≡ true
  pub not_revoked : proof.revoked ≡ false
