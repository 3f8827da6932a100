-- ===== src/Anchoring/Chain.antt =====
-- apps/worker/src/lib/blockchain.ts: the worker's reads and writes of the registry contract.
use mathlib.Core.Option
use Prim.Native.String
use certiva.Prelude.{
  ℕ, ◌*◌, Bool, true, false, not, ◌&&◌, String, Option, none, some, Result, ok, err, ◌>>=◌, ◌>>◌,
  guard, ◌===◌, if◌then◌else◌, or_else,
}
use certiva.Text.{trim, to_lower_case, is_hex64}
use certiva.Registry.{Credential}
use certiva.Blockchain.{Rpc, Config, is_configured, polygon_amoy_chain_id, required}

-- What `readProof` returns.
pub record ChainProof : Type 0 where
  pub document_hash : String
  pub issuer : String
  pub issued_at : ℕ
  pub revoked : Bool
  pub issuer_authorized : Bool
  pub exists : Bool

-- BlockchainWriteResult
pub record ChainWrite : Type 0 where
  pub tx_hash : Option String
  pub block_number : Option ℕ
  pub anchored_at : Option ℕ
  pub chain_id : ℕ
  pub already_processed : Bool

assert_configured : Config → Result (Unit {0})
assert_configured cfg =
    guard (is_configured cfg)
      "Blockchain worker is missing POLYGON_AMOY_RPC_URL, PRIVATE_KEY, or CONTRACT_ADDRESS."

unfoldable pub get_account : Rpc → Config → Result String
unfolding assert_configured
get_account rpc cfg = do assert_configured cfg; rpc.private_key_address (or_else cfg.private_key "")

unfoldable pub to_bytes32_proof_hash : String → Result String
to_bytes32_proof_hash proof_hash =
    let normalized = to_lower_case (trim proof_hash) in
    if is_hex64 normalized
    then ok (String.◌++◌ "0x" normalized)
    else err "Credential chainProofHash must be a lowercase bytes32 value."

unfoldable pub read_proof : Rpc → Config → String → Result ChainProof
unfolding assert_configured
read_proof rpc cfg id = do
  assert_configured cfg
  address ← rpc.get_address (or_else cfg.contract_address "")
  exists ← rpc.credential_exists id
  document_hash ← rpc.credential_hash id
  issuer ← rpc.credential_issuer id
  issued_at ← rpc.credential_timestamp id
  revocation ← rpc.credential_revocation id
  authorized ← (if exists then rpc.is_authorized_issuer issuer else ok false)
  ok (record {
    document_hash = document_hash;
    issuer = issuer;
    issued_at = issued_at;
    revoked = revocation.0;
    issuer_authorized = authorized;
    exists = exists;
  })

unfoldable pub assert_issuer_wallet : Rpc → Config → Credential → Result (Unit {0})
unfolding get_account
assert_issuer_wallet rpc cfg c = do
  wallet ←
      required (Option.map trim c.issuer.wallet)
        "Issuer wallet is required for blockchain anchoring."
  account ← get_account rpc cfg
  address ← rpc.get_address wallet
  guard (rpc.is_address_equal account address)
      "Issuer wallet does not match configured signing key."

-- The proof on chain is the one that anchoring this credential would write.
unfoldable pub is_anchored_as : Rpc → ChainProof → String → String → Bool
is_anchored_as rpc proof expected_hash issuer_wallet =
    proof.document_hash === expected_hash
    && (rpc.is_address_equal proof.issuer issuer_wallet
        && (proof.issuer_authorized && not proof.revoked))

-- `credential.anchoredAt ?? new Date(Number(proof.issuedAt) * 1000)`
abbrev pub anchored_at_or_issued : Credential → ChainProof → Option ℕ
anchored_at_or_issued c proof = some (or_else c.anchored_at (proof.issued_at * 1000))

-- Simulate, write and wait for the receipt.
send : Rpc → Config → String → Credential → Option String → Option ℕ → Result ChainWrite
send rpc cfg function c hash anchored_at = do
  account ← get_account rpc cfg
  address ← rpc.get_address (or_else cfg.contract_address "")
  sent ← rpc.write function c.id hash
  ok (record {
    tx_hash = some sent.0;
    block_number = some sent.1;
    anchored_at = anchored_at;
    chain_id = polygon_amoy_chain_id;
    already_processed = false;
  })

-- The rest of `anchorCredentialOnChain`, once the proof has been read.
unfoldable pub anchor_from : Rpc → Config → ℕ → Credential → ChainProof → Result ChainWrite
unfolding send
anchor_from rpc cfg now c proof = do
  expected_hash ← to_bytes32_proof_hash c.chain_proof_hash
  issuer_wallet ← rpc.get_address (or_else c.issuer.wallet "")
  if proof.exists
      then (if is_anchored_as rpc proof expected_hash issuer_wallet
          then ok (record {
            tx_hash = c.tx_hash;
            block_number = c.block_number;
            anchored_at = anchored_at_or_issued c proof;
            chain_id = polygon_amoy_chain_id;
            already_processed = true;
          })
          else err "On-chain proof already exists with mismatched data.")
      else send rpc cfg "anchorCredential" c (some expected_hash) (some now)

unfoldable pub anchor_credential_on_chain : Rpc → Config → ℕ → Credential → Result ChainWrite
anchor_credential_on_chain rpc cfg now c = do
  assert_issuer_wallet rpc cfg c
  proof ← read_proof rpc cfg c.id
  anchor_from rpc cfg now c proof

unfoldable pub revoke_credential_on_chain : Rpc → Config → Credential → Result ChainWrite
unfolding send
revoke_credential_on_chain rpc cfg c = do
  assert_issuer_wallet rpc cfg c
  proof ← read_proof rpc cfg c.id
  guard proof.exists "On-chain proof does not exist."
  expected_hash ← to_bytes32_proof_hash c.chain_proof_hash
  guard (proof.document_hash === expected_hash) "On-chain proof hash mismatch detected."
  if proof.revoked
      then ok (record {
        tx_hash = none;
        block_number = none;
        anchored_at = anchored_at_or_issued c proof;
        chain_id = polygon_amoy_chain_id;
        already_processed = true;
      })
      else send rpc cfg "revokeCredential" c none (anchored_at_or_issued c proof)
