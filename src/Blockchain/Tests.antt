-- ===== src/Blockchain/Tests.antt =====
-- The on-chain status at concrete nodes, and the theorems of `Vouching` there.
use certiva.Prelude.{true, false, ◌≡◌, ◌↔◌, refl}
use certiva.Blockchain.{
  on_chain_verified, mismatch, unavailable, pending, ProofRecord, is_configured, read_proof,
  to_bytes32_proof_hash,
}
use certiva.Blockchain.Verify.{
  verify_record, verify_proof, verify_with_proof, verify_without_proof, Vouches,
}
use certiva.Blockchain.Vouching.{verified_iff}
use certiva.Fixtures.{credential, other, node, dead_node, config}
use certiva.Text.{is_hex64, to_lower_case, trim}

-- What a run of `verify_record` unfolds.
run : Unit {0}
unfolding verify_record verify_proof verify_with_proof verify_without_proof is_configured read_proof
    to_bytes32_proof_hash is_hex64 to_lower_case trim
run = tt

statuses :
    ((verify_record (node false) config credential).blockchain_status ≡ on_chain_verified)
    × ((verify_record (node true) config credential).blockchain_status ≡ mismatch)
    × ((verify_record (node false) config other).blockchain_status ≡ pending)
    × ((verify_record dead_node config credential).blockchain_status ≡ unavailable)
unfolding run
statuses = (refl, refl, refl, refl)

verified_iff_example :
    ((verify_record (node false) config credential).blockchain_verified ≡ true)
    ↔ ((proof : ProofRecord) × Vouches (node false) config credential proof)
verified_iff_example = verified_iff (node false) config credential
