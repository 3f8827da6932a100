-- ===== src/Verification/Lookup.antt =====
-- The lookups of apps/api/src/modules/verification/verification.service.ts: `verify`, the two that
-- resolve a reference, and the responses that they build.
use certiva.Prelude.{
  ℕ, Bool, true, false, ◌&&◌, ◌||◌, not, String, Option, none, some, List, Result, ok, err, ◌>>=◌,
  find_first, ◌===◌, eq_some, if◌then◌else◌, truthy, or_try, is_some,
}
use certiva.Text.{trim, to_lower_case}
use certiva.Registry.{
  Credential, registry_code_lookup, VerificationStatus, not_found, VerificationLog,
}
use certiva.Blockchain.{ProofStatus, unavailable, VerificationResult}
use certiva.Blockchain.Verify.{verify_record}
use certiva.Verification.{
  Env, Db, build_signature_block, signature_valid, resolve_status, TrustCheck, build_trust_checks,
  record_verification,
}
use mathlib.Core.Option

-- VerifyCredentialDto
pub record VerifyDto : Type 0 where
  pub credential_id : Option String
  pub hash : Option String
  pub issuer_domain : Option String

pub record PublicCredential : Type 0 where
  pub id : String
  pub verification_id : String
  pub verification_mode : String
  pub secure_pdf_enabled : Bool
  pub student_name : String
  pub degree : String
  pub issuer_id : String
  pub revoked : Bool

pub record VerifyResponse : Type 0 where
  pub result : VerificationStatus
  pub verified_at_timestamp : ℕ
  pub blockchain_verified : Bool
  pub blockchain_status : ProofStatus
  pub tx_hash : Option String
  pub block_number : Option ℕ
  pub anchored_at : Option ℕ
  pub trust_checks : List TrustCheck
  pub credential : Option PublicCredential

-- A where clause of `undefined` restricts nothing.
abbrev pub matches_id : Option String → Credential → Bool
matches_id none c = true
matches_id (some id) c = c.id === id

matches_hash : Option String → Credential → Bool
matches_hash none c = true
matches_hash (some h) c =
    if truthy (some h) then c.hash === h || eq_some c.document_hash h else true

matches_domain : Option String → Credential → Bool
matches_domain none c = true
matches_domain (some d) c = if truthy (some d) then c.issuer.domain === d else true

unfoldable pub not_deleted : Credential → Bool
not_deleted c = not (is_some c.deleted_at)

unfoldable pub verify_query : VerifyDto → Credential → Bool
unfolding matches_hash matches_domain not_deleted
verify_query dto c =
    not_deleted c
    && (matches_id dto.credential_id c
        && (matches_hash dto.hash c && matches_domain dto.issuer_domain c))

-- The credential as the anonymous endpoint shows it.
public_credential : Credential → PublicCredential
public_credential c = record {
  id = c.id;
  verification_id = c.verification_id;
  verification_mode = c.verification_mode;
  secure_pdf_enabled = c.secure_pdf_enabled;
  student_name = c.student_name;
  degree = c.degree;
  issuer_id = c.issuer.id;
  revoked = c.revoked;
}

-- `dto.hash?.trim().toLowerCase() || null`
unfoldable pub uploaded_hash_of : Option String → Option String
uploaded_hash_of none = none
uploaded_hash_of (some h) =
    let s = to_lower_case (trim h) in if truthy (some s) then some s else none

-- The verdict on a stored credential: `resolveStatus` over the chain's answer and the signature.
unfoldable pub status_of : Env → Credential → VerificationStatus
status_of env c =
    resolve_status c (some (verify_record env.rpc env.config c))
      (signature_valid (build_signature_block env.verify_ed25519 c))

unfoldable pub status_or_not_found : Env → Option Credential → VerificationStatus
status_or_not_found env none = not_found
status_or_not_found env (some c) = status_of env c

abbrev chain_answer : Env → Option Credential → Option VerificationResult
chain_answer env none = none
chain_answer env (some c) = some (verify_record env.rpc env.config c)

unfoldable pub verify_response : Env → ℕ → Option Credential → VerifyResponse
unfolding public_credential
verify_response env now c =
    let v = chain_answer env c in
    record {
      result = status_or_not_found env c;
      verified_at_timestamp = now;
      blockchain_verified = elim v [ none ↦ false | some r ↦ r.blockchain_verified ];
      blockchain_status = elim v [ none ↦ unavailable | some r ↦ r.blockchain_status ];
      tx_hash =
          or_try (elim v [ none ↦ none | some r ↦ r.tx_hash ])
            (elim c [ none ↦ none | some d ↦ d.tx_hash ]);
      block_number =
          or_try (elim v [ none ↦ none | some r ↦ r.block_number ])
            (elim c [ none ↦ none | some d ↦ d.block_number ]);
      anchored_at =
          or_try (elim v [ none ↦ none | some r ↦ r.anchored_at ])
            (elim c [ none ↦ none | some d ↦ d.anchored_at ]);
      trust_checks = build_trust_checks c v;
      credential = Option.map public_credential c;
    }

abbrev pub verify_log :
    ℕ → VerifyDto → String → VerificationStatus → Option Credential → VerificationLog
verify_log now dto ip status c = record {
  credential_id = Option.map (λ (d : Credential). d.id) c;
  event_type = registry_code_lookup;
  uploaded_hash = uploaded_hash_of dto.hash;
  matched = is_some c;
  status = status;
  ip_address = ip;
  created_at = now;
}

-- The rest of `verify`, once the query has answered.
unfoldable pub verify_found :
    Env → ℕ → VerifyDto → String → Db → Option Credential → Result (VerifyResponse × Db)
unfolding verify_response
verify_found env now dto ip db c = do
  written ← record_verification db (verify_log now dto ip (status_or_not_found env c) c)
  ok (verify_response env now c, written.1)

-- `verify`
unfoldable pub verify : Env → ℕ → VerifyDto → String → Db → Result (VerifyResponse × Db)
unfolding verify_found verify_query
verify env now dto ip db =
    if not (truthy dto.credential_id) && not (truthy dto.hash)
    then err "Provide credentialId or hash for verification"
    else verify_found env now dto ip db (find_first (verify_query dto) db.credentials)
