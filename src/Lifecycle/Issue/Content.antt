-- ===== src/Lifecycle/Issue/Content.antt =====
-- What `issueCredentialRecord` of apps/api/src/modules/credential/credential.service.ts computes for a
-- new credential before it is stored, and the row that is stored.
use certiva.Prelude.{ℕ, false, String, Option, none, some, [], or_else}
use certiva.Registry.{Credential, Issuer}
use certiva.Lifecycle.{Tools, AssetRecord, AssetBundle, CredentialSignature, SigningInput}
use certiva.Lifecycle.Payload.{
  TokenInput, build_signed_verification_token, build_registry_proof_hash, build_credential_hash,
}

pub record IssueInput : Type 0 where
  pub student_name : String
  pub student_id : String
  pub degree : String
  pub graduation_year : Option ℕ
  pub batch_id : Option String

-- What is computed for a new credential before anything is stored.
pub record Draft : Type 0 where
  pub token : String
  pub registry_proof_hash : String
  pub hash : String

abbrev pub institution_of : Issuer → String
institution_of issuer = or_else issuer.display_name issuer.name

abbrev pub token_input : Tools → String → TokenInput
token_input t issuer_id = record {
  credential_id = t.new_credential_id;
  verification_id = t.new_verification_id;
  verification_code = t.new_verification_code;
  issuer_id = issuer_id;
  issued_at = t.now;
}

unfoldable pub draft : Tools → Issuer → IssueInput → Draft
unfolding build_signed_verification_token build_registry_proof_hash build_credential_hash
draft t issuer input =
    let token =
      build_signed_verification_token t.to_iso_string t.hmac_sha256 t.jwt_secret
        (token_input t issuer.id) in
    record {
      token = token;
      registry_proof_hash =
          build_registry_proof_hash t.to_iso_string t.hash_string (token_input t issuer.id) token;
      hash = build_credential_hash t.to_iso_string t.hash_string (record {
        credential_id = t.new_credential_id;
        verification_id = t.new_verification_id;
        issuer_id = issuer.id;
        institution = institution_of issuer;
        student_name = input.student_name;
        student_id = input.student_id;
        degree = input.degree;
        issued_at = t.now;
      });
    }

abbrev pub draft_asset_record : Tools → Issuer → IssueInput → String → AssetRecord
draft_asset_record t issuer input token = record {
  id = t.new_credential_id;
  credential_external_id = t.new_credential_id;
  verification_id = t.new_verification_id;
  verification_code = t.new_verification_code;
  signed_verification_token = token;
  student_name = input.student_name;
  student_id = input.student_id;
  degree = input.degree;
  issued_at = t.now;
  secure_pdf_enabled = false;
  document_hash = none;
  revoked = false;
  revoked_at = none;
  revocation_reason = none;
  issuer = record {
    id = issuer.id;
    name = issuer.name;
    display_name = issuer.display_name;
    domain = issuer.domain;
    logo_url = issuer.logo_url;
    website_url = issuer.website_url;
    status = issuer.status;
  };
}

abbrev pub signing_input : Tools → Issuer → IssueInput → SigningInput
signing_input t issuer input = record {
  issuer_id = issuer.id;
  credential_id = t.new_credential_id;
  verification_id = t.new_verification_id;
  issuer_domain = issuer.domain;
  issuer_name = institution_of issuer;
  student_name = input.student_name;
  student_id = input.student_id;
  degree = input.degree;
  graduation_year = input.graduation_year;
  issued_at = t.now;
}

-- The data of `credential.create`; the other columns have the defaults of the schema.
unfoldable pub new_credential :
    Tools → Issuer → IssueInput → Draft → CredentialSignature → AssetBundle → Credential
new_credential t issuer input d signature bundle = record {
  id = t.new_credential_id;
  credential_external_id = t.new_credential_id;
  verification_id = t.new_verification_id;
  verification_code = t.new_verification_code;
  signed_verification_token = d.token;
  qr_payload = bundle.qr_payload;
  verification_mode = "CORE_REGISTRY";
  secure_pdf_enabled = false;
  student_name = input.student_name;
  student_id = input.student_id;
  degree = input.degree;
  graduation_year = input.graduation_year;
  metadata_uri = bundle.metadata_uri;
  metadata_json = bundle.metadata_json;
  qr_code_uri = bundle.qr_code_uri;
  certificate_uri = bundle.certificate_uri;
  verification_url = bundle.verification_url;
  hash = d.hash;
  registry_hash = d.registry_proof_hash;
  chain_proof_hash = d.registry_proof_hash;
  document_hash = none;
  file_name = bundle.file_name;
  mime_type = bundle.mime_type;
  file_size = bundle.file_size;
  tx_hash = none;
  revocation_tx_hash = none;
  chain_id = none;
  anchored_at = none;
  block_number = none;
  anchor_status = "PENDING";
  chain_status = "PENDING";
  chain_synced_at = none;
  anchor_version = "V2";
  issuer_wallet = issuer.wallet;
  chain_metadata = none;
  public_payload = some signature.public_payload;
  signature = some signature.signature;
  signature_algorithm = some "Ed25519";
  signed_at = some signature.signed_at;
  signing_key = some signature.signing_key;
  vc_proof_value = some signature.vc_proof_value;
  vc_proof_created = some signature.vc_proof_created;
  vc_document = some signature.vc_document;
  revoked = false;
  revoked_at = none;
  revoked_by = none;
  revoked_by_admin_id = none;
  revocation_reason = none;
  revocation_notes = none;
  deleted_at = none;
  deleted_by = none;
  deleted_by_admin_id = none;
  verification_count = 0;
  verified_at = none;
  issued_at = t.now;
  issuer = issuer;
  batch_id = input.batch_id;
  document_proofs = [];
}
