-- ===== src/Verification.antt =====
-- apps/api/src/modules/verification/verification.service.ts: the verdict on a credential, the trust
-- checks, and the log that every verification leaves. The children hold the endpoints.
mod Tests
pub mod Status
pub mod Recording
pub mod Lookup
pub mod Reference
pub mod Lookups
pub mod SecurePdf
pub mod Integrity
pub mod Export
use certiva.Prelude.{
  ℕ, ◌+◌, Bool, true, false, not, ◌&&◌, ◌||◌, String, Option, none, some, List, [], ◌∷◌, ◌++◌,
  Result, ok, err, find_first, update_where, ◌===◌, if◌then◌else◌, truthy, or_else, or_try, is_some,
}
use certiva.Registry.{
  IssuerStatus, active, inactive, suspended, Issuer, Credential, SigningKey, EventType,
  VerificationStatus, valid, invalid, revoked, tampered, VerificationLog,
}
use certiva.Blockchain.{
  ProofStatus, mismatch, archived_v1, ProofRecord, VerificationResult, Rpc, Config,
}
use certiva.Assets.{AssetConfig}

-- What the service is constructed with, and node:crypto's Ed25519 check and SHA-256 digest.
pub record Env : Type 0 where
  pub rpc : Rpc
  pub config : Config
  pub assets : AssetConfig
  pub verify_ed25519 : String → String → String → Bool
  pub hash_buffer : String → String

pub record Db : Type 0 where
  pub credentials : List Credential
  pub verification_logs : List VerificationLog

pub record SignatureBlock : Type 0 where
  pub algorithm : String
  pub signing_key_id : String
  pub public_key : String
  pub signature_valid : Bool

signature_of :
    (String → String → String → Bool)
    → String
    → Option String
    → Option String
    → Option SigningKey
    → Option SignatureBlock
signature_of check algorithm (some signature) (some payload) (some key) =
    if truthy (some signature) && truthy (some payload)
    then some (record {
      algorithm = algorithm;
      signing_key_id = key.key_id;
      public_key = key.public_key;
      signature_valid = check payload signature key.public_key;
    })
    else none
signature_of check algorithm _ _ _ = none

-- `buildSignatureBlock`: null unless the credential has a signature, its payload and its key.
unfoldable pub build_signature_block :
    (String → String → String → Bool) → Credential → Option SignatureBlock
unfolding signature_of
build_signature_block check c =
    signature_of check (or_else c.signature_algorithm "Ed25519") c.signature c.public_payload
      c.signing_key

-- `signatureBlock?.signatureValid`
abbrev pub signature_valid : Option SignatureBlock → Option Bool
signature_valid none = none
signature_valid (some b) = some b.signature_valid

abbrev pub is_active : IssuerStatus → Bool
is_active active = true
is_active inactive = false
is_active suspended = false

abbrev pub is_mismatch : ProofStatus → Bool
is_mismatch mismatch = true
is_mismatch _ = false

abbrev pub is_archived : ProofStatus → Bool
is_archived archived_v1 = true
is_archived _ = false

-- `verification?.blockchainStatus === mismatch`, `verification?.proof?.revoked`
abbrev pub mismatched : Option VerificationResult → Bool
mismatched none = false
mismatched (some v) = is_mismatch v.blockchain_status

abbrev pub proof_revoked : Option ProofRecord → Bool
proof_revoked none = false
proof_revoked (some p) = p.revoked

abbrev pub revoked_on_chain : Option VerificationResult → Bool
revoked_on_chain none = false
revoked_on_chain (some v) = proof_revoked v.proof

abbrev pub is_false : Option Bool → Bool
is_false (some false) = true
is_false (some true) = false
is_false none = false

unfoldable pub resolve_status :
    Credential → Option VerificationResult → Option Bool → VerificationStatus
resolve_status c verification signature =
    if not (is_active c.issuer.status)
    then invalid
    else if mismatched verification
    then tampered
    else if revoked_on_chain verification || c.revoked
    then revoked
    else if is_false signature
    then tampered
    else valid

pub record TrustCheck : Type 0 where
  pub key : String
  pub label : String
  pub ok : Bool

-- `verification?.proof?.issuerAuthorized ?? verification?.blockchainStatus === archivedV1`
abbrev pub issuer_authorized : Option VerificationResult → Bool
issuer_authorized none = false
issuer_authorized (some v) = elim v.proof [
  | none ↦ is_archived v.blockchain_status
  | some p ↦ p.issuer_authorized
]

abbrev pub anchored : Option VerificationResult → Bool
anchored none = false
anchored (some v) = v.blockchain_verified || is_archived v.blockchain_status

abbrev pub unrevoked : Option Credential → Bool
unrevoked none = false
unrevoked (some c) = not c.revoked

unfoldable pub build_trust_checks : Option Credential → Option VerificationResult → List TrustCheck
build_trust_checks c verification =
    let live = unrevoked c && not (revoked_on_chain verification) in
    record {
      key = "integrity";
      label = "Credential Integrity Verified";
      ok = not (mismatched verification) && is_some c;
    }
    ∷ (record {
      key = "issuer";
      label = "Official Issuer Confirmed";
      ok = issuer_authorized verification;
    }
        ∷ (record { key = "chain"; label = "Blockchain Proof Verified"; ok = anchored verification }
            ∷ (record {
              key = "active";
              label = if live then "Credential Active" else "Credential Revoked";
              ok = live;
            }
                ∷ [])))

-- The argument of `recordVerification`; its fields are those of the log row.
abbrev pub count_verification : ℕ → Credential → Credential
count_verification now c = record c {
  verification_count = c.verification_count + 1;
  verified_at = some now;
}

unfoldable pub has_id : String → Credential → Bool
has_id id c = c.id === id

-- The transaction of a matched verification: the log row and the updated credential, or neither
-- when no row has the id.
unfoldable pub commit_verification : Db → VerificationLog → String → Result (Option Credential × Db)
unfolding has_id
commit_verification db log id =
    let credentials = update_where (has_id id) (count_verification log.created_at) db.credentials in
    elim (find_first (has_id id) credentials) [
      | none ↦ err "P2025"
      | some c ↦ ok (
        some c,
        record { credentials = credentials; verification_logs = db.verification_logs ++ log ∷ [] },
      )
    ]

unfoldable pub record_verification : Db → VerificationLog → Result (Option Credential × Db)
unfolding commit_verification
record_verification db log =
    if truthy log.credential_id
    then commit_verification db log (or_else log.credential_id "")
    else ok (
      none,
      record db {
        verification_logs = db.verification_logs ++ record log { credential_id = none } ∷ [];
      },
    )
