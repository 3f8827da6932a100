-- ===== src/Fixtures.antt =====
-- Concrete rows and a concrete node, on which the tests and the examples run.
use certiva.Prelude.{ℕ, Bool, true, false, String, none, some, [], ◌∷◌, Result, ok, err, ◌===◌}
use certiva.Registry.{Issuer, active, Credential, SigningKey, DocumentProof, ProofState}
use certiva.Blockchain.{Rpc, Config}
use certiva.Assets.{AssetConfig, ◌<>◌}
use certiva.Verification.{Env, Db}

abbrev pub digest : String
digest = "00000000000000000000000000000000000000000000000000000000000000aa"

abbrev pub issuer : Issuer
issuer = record {
  id = "iss1";
  name = "Universitas";
  display_name = some "Univ";
  domain = "verify.univ.ac.id";
  wallet = some "0xA1";
  logo_url = none;
  website_url = none;
  status = active;
}

abbrev pub key : SigningKey
key = record { key_id = "sk_1"; public_key = "pk" }

abbrev pub pdf_proof : DocumentProof
pdf_proof = record {
  hash = "pdf";
  status = ProofState.active;
  registered_at = 5;
  registered_by = "ani@certiva.local";
  file_name = "credential.pdf";
  file_size = 3;
  mime_type = "application/pdf";
}

abbrev pub credential : Credential
credential = record {
  id = "crd_1";
  credential_external_id = "crd_1";
  verification_id = "vrf_1";
  verification_code = "CV-1";
  signed_verification_token = "token";
  qr_payload = "payload";
  verification_mode = "CORE_REGISTRY";
  secure_pdf_enabled = false;
  student_name = "Ani";
  student_id = "17";
  degree = "S1";
  graduation_year = none;
  metadata_uri = "m";
  metadata_json = "{}";
  qr_code_uri = "q";
  certificate_uri = none;
  verification_url = "u";
  hash = "h";
  registry_hash = digest;
  chain_proof_hash = digest;
  document_hash = none;
  file_name = none;
  mime_type = none;
  file_size = none;
  tx_hash = none;
  revocation_tx_hash = none;
  chain_id = none;
  anchored_at = none;
  block_number = none;
  anchor_status = "PENDING";
  chain_status = "PENDING";
  chain_synced_at = none;
  anchor_version = "V2";
  issuer_wallet = none;
  chain_metadata = none;
  public_payload = some "payload";
  signature = some "good";
  signature_algorithm = some "Ed25519";
  signed_at = some 1000;
  signing_key = some key;
  vc_proof_value = none;
  vc_proof_created = none;
  vc_document = some "{}";
  revoked = false;
  revoked_at = none;
  revoked_by = none;
  revoked_by_admin_id = none;
  revocation_reason = none;
  revocation_notes = none;
  deleted_at = none;
  deleted_by = none;
  deleted_by_admin_id = none;
  verification_count = 4;
  verified_at = none;
  issued_at = 1000;
  issuer = issuer;
  batch_id = none;
  document_proofs = pdf_proof ∷ [];
}

abbrev pub other : Credential
other = record credential {
  id = "crd_2";
  credential_external_id = "crd_2";
  verification_id = "vrf_2";
  verification_code = "CV-2";
  signed_verification_token = "token2";
}

abbrev pub receipt : Result (String × ℕ)
receipt = ok ("0xtx", 7)

-- A node that holds the credential's proof, revoked or not.
abbrev pub node : Bool → Rpc
node is_revoked = record {
  credential_exists = λ id. ok (id === "crd_1");
  credential_hash = λ _. ok ("0x" <> digest);
  credential_issuer = λ _. ok "0xA1";
  credential_timestamp = λ _. ok 3;
  credential_revocation = λ _. ok (is_revoked, 0, "");
  is_authorized_issuer = λ _. ok true;
  get_address = λ a. ok a;
  is_address_equal = λ a b. a === b;
  private_key_address = λ _. ok "0xA1";
  write = λ _ _ _. receipt;
}

-- A node that cannot be reached.
abbrev pub dead_node : Rpc
dead_node = record (node false) { credential_exists = λ _. err "timeout" }

abbrev pub config : Config
config = record { rpc_url = some "url"; private_key = some "key"; contract_address = some "0xC0" }

abbrev pub assets : AssetConfig
assets = record {
  api_public_base_url = "https://api/";
  web_public_base_url = "https://web";
  encode = λ s. s;
}

abbrev pub env : Bool → Env
env is_revoked = record {
  rpc = node is_revoked;
  config = config;
  assets = assets;
  verify_ed25519 = λ payload signature public_key. signature === "good";
  hash_buffer = λ buffer. buffer;
}

abbrev pub db : Db
db = record { credentials = other ∷ credential ∷ []; verification_logs = [] }
