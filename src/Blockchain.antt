-- ===== src/Blockchain.antt =====
-- apps/api/src/modules/blockchain/blockchain.service.ts: reading a credential's on-chain proof and
-- deciding its status, anchoring and revoking. The RPC node, the registry contract and viem's
-- address functions are the fields of `Rpc`; a call that rejects is an `err`.
mod Tests
pub mod Verify
pub mod Vouching
use certiva.Prelude.{
  ℕ, ◌*◌, Bool, true, false, not, ◌&&◌, ◌||◌, String, Option, none, some, Result, ok, err, ◌>>=◌,
  ◌>>◌, guard, catch, ltb, ◌===◌, if◌then◌else◌, truthy, or_else, or_try,
}
use certiva.Text.{trim, to_lower_case, is_hex64}
use certiva.Registry.{Issuer, Credential}
use Prim.Native.String
use mathlib.Core.Option

-- BLOCKCHAIN_PROOF_STATUS
pub data ProofStatus : Type 0 where
  on_chain_verified issuer_unauthorized mismatch not_anchored : ProofStatus
  archived_v1 failed pending unavailable : ProofStatus

-- What the node and the contract answer. `write f id hash` is the simulated, sent and confirmed
-- transaction: its hash and block number.
pub record Rpc : Type 0 where
  pub credential_exists : String → Result Bool
  pub credential_hash : String → Result String
  pub credential_issuer : String → Result String
  pub credential_timestamp : String → Result ℕ
  pub credential_revocation : String → Result (Bool × ℕ × String)
  pub is_authorized_issuer : String → Result Bool
  pub get_address : String → Result String
  pub is_address_equal : String → String → Bool
  pub private_key_address : String → Result String
  pub write : String → String → Option String → Result (String × ℕ)

pub record Config : Type 0 where
  pub rpc_url : Option String
  pub private_key : Option String
  pub contract_address : Option String

-- BlockchainProofRecord
pub record ProofRecord : Type 0 where
  pub credential_id : String
  pub document_hash : String
  pub issuer : String
  pub issuer_authorized : Bool
  pub issued_at : Option ℕ
  pub revoked : Bool
  pub revoked_at : Option ℕ
  pub revoked_by : Option String
  pub exists : Bool

-- BlockchainVerificationResult
pub record VerificationResult : Type 0 where
  pub blockchain_status : ProofStatus
  pub blockchain_verified : Bool
  pub chain_id : Option ℕ
  pub tx_hash : Option String
  pub block_number : Option ℕ
  pub anchored_at : Option ℕ
  pub proof : Option ProofRecord

abbrev pub polygon_amoy_chain_id : ℕ
polygon_amoy_chain_id = 80002

abbrev pub zero_address : String
zero_address = "0x0000000000000000000000000000000000000000"

-- `proofHash?.trim().toLowerCase()`, checked and prefixed.
unfoldable pub to_bytes32_proof_hash : String → Result String
to_bytes32_proof_hash proof_hash =
    let normalized = to_lower_case (trim proof_hash) in
    if is_hex64 normalized
    then ok (String.◌++◌ "0x" normalized)
    else err "Credential proof hash is not a valid bytes32 hex value."

unfoldable pub is_configured : Config → Bool
is_configured cfg = truthy cfg.rpc_url && (truthy cfg.private_key && truthy cfg.contract_address)

-- `value > 0n ? new Date(Number(value) * 1000) : null`
abbrev pub chain_date : ℕ → Option ℕ
chain_date t = if ltb 0 t then some (t * 1000) else none

abbrev pub revoker : String → Option String
revoker by = if truthy (some by) && not (by === zero_address) then some by else none

unfoldable pub to_proof_record :
    String → String → String → ℕ → Bool → Bool → ℕ → String → Bool → Option ProofRecord
to_proof_record id hash issuer issued_at authorized revoked revoked_at revoked_by exists =
    if exists
    then some (record {
      credential_id = id;
      document_hash = hash;
      issuer = issuer;
      issuer_authorized = authorized;
      issued_at = chain_date issued_at;
      revoked = revoked;
      revoked_at = chain_date revoked_at;
      revoked_by = revoker revoked_by;
      exists = true;
    })
    else none

-- `if (!value) throw new Error(message)`
abbrev pub required : Option String → String → Result String
required none message = err message
required (some s) message = if truthy (some s) then ok s else err message

-- `getPublicClient` needs only the URL.
get_public_client : Config → Result String
get_public_client cfg = required cfg.rpc_url "POLYGON_AMOY_RPC_URL is not configured."

get_contract_address : Rpc → Config → Result String
get_contract_address rpc cfg = do
  address ← required cfg.contract_address "CONTRACT_ADDRESS is not configured."
  rpc.get_address address

unfoldable pub read_proof : Rpc → Config → String → Result (Option ProofRecord)
unfolding get_public_client get_contract_address to_proof_record
read_proof rpc cfg id = do
  client ← get_public_client cfg
  address ← get_contract_address rpc cfg
  exists ← rpc.credential_exists id
  hash ← rpc.credential_hash id
  issuer ← rpc.credential_issuer id
  issued_at ← rpc.credential_timestamp id
  revocation ← rpc.credential_revocation id
  authorized ← (if exists then rpc.is_authorized_issuer issuer else ok false)
  ok (
      to_proof_record id hash issuer issued_at authorized revocation.0 revocation.1 revocation.2
        exists)
