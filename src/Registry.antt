-- ===== src/Registry.antt =====
-- The rows that the services share (apps/api/prisma/schema.prisma): an issuer, its signing key, a
-- registered PDF, a credential with the relations that the services include, and the two logs.
-- A row's columns that no modelled operation reads or writes are left out, and a key of another
-- table stands as the row that it names: `issuerId` is the id of `issuer`. A JSON column is its text.
use certiva.Prelude.{ℕ, Bool, String, Option, List}

pub data IssuerStatus : Type 0 where
  active inactive suspended : IssuerStatus

pub record Issuer : Type 0 where
  pub id : String
  pub name : String
  pub display_name : Option String
  pub domain : String
  pub wallet : Option String
  pub logo_url : Option String
  pub website_url : Option String
  pub status : IssuerStatus

pub record SigningKey : Type 0 where
  pub key_id : String
  pub public_key : String

pub data ProofState : Type 0 where
  active superseded revoked : ProofState

pub record DocumentProof : Type 0 where
  pub hash : String
  pub status : ProofState
  pub registered_at : ℕ
  pub registered_by : String
  pub file_name : String
  pub file_size : ℕ
  pub mime_type : String

pub record Credential : Type 0 where
  pub id : String
  pub credential_external_id : String
  pub verification_id : String
  pub verification_code : String
  pub signed_verification_token : String
  pub qr_payload : String
  pub verification_mode : String
  pub secure_pdf_enabled : Bool
  pub student_name : String
  pub student_id : String
  pub degree : String
  pub graduation_year : Option ℕ
  pub metadata_uri : String
  pub metadata_json : String
  pub qr_code_uri : String
  pub certificate_uri : Option String
  pub verification_url : String
  pub hash : String
  pub registry_hash : String
  pub chain_proof_hash : String
  pub document_hash : Option String
  pub file_name : Option String
  pub mime_type : Option String
  pub file_size : Option ℕ
  pub tx_hash : Option String
  pub revocation_tx_hash : Option String
  pub chain_id : Option ℕ
  pub anchored_at : Option ℕ
  pub block_number : Option ℕ
  pub anchor_status : String
  pub chain_status : String
  pub chain_synced_at : Option ℕ
  pub anchor_version : String
  pub issuer_wallet : Option String
  pub chain_metadata : Option (String × Bool)
  pub public_payload : Option String
  pub signature : Option String
  pub signature_algorithm : Option String
  pub signed_at : Option ℕ
  pub signing_key : Option SigningKey
  pub vc_proof_value : Option String
  pub vc_proof_created : Option ℕ
  pub vc_document : Option String
  pub revoked : Bool
  pub revoked_at : Option ℕ
  pub revoked_by : Option String
  pub revoked_by_admin_id : Option String
  pub revocation_reason : Option String
  pub revocation_notes : Option String
  pub deleted_at : Option ℕ
  pub deleted_by : Option String
  pub deleted_by_admin_id : Option String
  pub verification_count : ℕ
  pub verified_at : Option ℕ
  pub issued_at : ℕ
  pub issuer : Issuer
  pub batch_id : Option String
  pub document_proofs : List DocumentProof

-- A row of IssuanceBatch.
pub record IssuanceBatch : Type 0 where
  pub id : String
  pub issuer_id : String
  pub uploaded_by : String
  pub total_rows : ℕ
  pub issued_rows : ℕ
  pub failed_rows : ℕ

-- A row of BlockchainAnchorLog.
pub record AnchorLog : Type 0 where
  pub credential_id : String
  pub operation : String
  pub status : String
  pub tx_hash : Option String
  pub chain_id : Option ℕ
  pub block_number : Option ℕ
  pub attempts : ℕ
  pub error_message : Option String

pub data EventType : Type 0 where
  registry_code_lookup qr_lookup pdf_integrity_check : EventType

-- The literals of `VerificationStatus`.
pub data VerificationStatus : Type 0 where
  valid invalid revoked not_found tampered : VerificationStatus
  integrity_verified document_modified no_secure_pdf_record : VerificationStatus

-- A row of VerificationLog.
pub record VerificationLog : Type 0 where
  pub credential_id : Option String
  pub event_type : EventType
  pub uploaded_hash : Option String
  pub matched : Bool
  pub status : VerificationStatus
  pub ip_address : String
  pub created_at : ℕ
