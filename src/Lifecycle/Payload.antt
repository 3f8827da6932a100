-- ===== src/Lifecycle/Payload.antt =====
-- apps/api/src/modules/credential/credential.utils.ts: the texts that are hashed and signed. SHA-256,
-- HMAC and `toISOString` are arguments.
use mathlib.Core.Option
use certiva.Prelude.{ℕ, String, Option, List, [], ◌∷◌, or_else}
use certiva.Text.{trim, collapse_spaces}
use certiva.Assets.{◌<>◌}

-- `normalizeValue`
unfoldable pub normalize_value : String → String
normalize_value value = collapse_spaces (trim value)

-- `lines.join('\n')`
unfoldable pub join_lines : List String → String
join_lines [] = ""
join_lines (line ∷ []) = line
join_lines (line ∷ next ∷ rest) = line <> ("\n" <> join_lines (next ∷ rest))

pub record TokenInput : Type 0 where
  pub credential_id : String
  pub verification_id : String
  pub verification_code : String
  pub issuer_id : String
  pub issued_at : ℕ

unfoldable pub build_signed_verification_token :
    (ℕ → String) → (String → String → String) → String → TokenInput → String
unfolding join_lines
build_signed_verification_token to_iso_string hmac_sha256 secret input =
    hmac_sha256
      (join_lines (
        ("credentialId:" <> input.credential_id)
        ∷ ("verificationId:" <> input.verification_id)
        ∷ ("verificationCode:" <> input.verification_code)
        ∷ ("issuerId:" <> input.issuer_id)
        ∷ ("issuedAt:" <> to_iso_string input.issued_at)
        ∷ []))
      secret

unfoldable pub build_registry_proof_hash :
    (ℕ → String) → (String → String) → TokenInput → String → String
unfolding join_lines
build_registry_proof_hash to_iso_string hash_string input token = hash_string (
    join_lines (
      ("credentialId:" <> input.credential_id)
      ∷ ("verificationId:" <> input.verification_id)
      ∷ ("verificationCode:" <> input.verification_code)
      ∷ ("issuerId:" <> input.issuer_id)
      ∷ ("issuedAt:" <> to_iso_string input.issued_at)
      ∷ ("signedVerificationToken:" <> token)
      ∷ []))

pub record CanonicalInput : Type 0 where
  pub credential_id : String
  pub verification_id : String
  pub issuer_id : String
  pub institution : String
  pub student_name : String
  pub student_id : String
  pub degree : String
  pub issued_at : ℕ

unfoldable pub build_canonical_credential_payload : (ℕ → String) → CanonicalInput → String
unfolding normalize_value join_lines
build_canonical_credential_payload to_iso_string input = join_lines (
    ("credentialId:" <> input.credential_id)
    ∷ ("verificationId:" <> input.verification_id)
    ∷ ("issuerId:" <> input.issuer_id)
    ∷ ("institution:" <> normalize_value input.institution)
    ∷ ("studentName:" <> normalize_value input.student_name)
    ∷ ("studentId:" <> normalize_value input.student_id)
    ∷ ("degree:" <> normalize_value input.degree)
    ∷ ("issuedAt:" <> to_iso_string input.issued_at)
    ∷ [])

unfoldable pub build_credential_hash : (ℕ → String) → (String → String) → CanonicalInput → String
build_credential_hash to_iso_string hash_string input =
    hash_string (build_canonical_credential_payload to_iso_string input)

pub record PublicCredentialPayload : Type 0 where
  pub credential_id : String
  pub verification_id : String
  pub issuer_domain : String
  pub issuer_name : String
  pub student_name : String
  pub student_id : String
  pub degree : String
  pub graduation_year : Option ℕ
  pub issued_at : ℕ
  pub signing_key_id : String

-- `to_string` is the printing of a number.
unfoldable pub build_public_signature_payload :
    (ℕ → String) → (ℕ → String) → PublicCredentialPayload → String
unfolding normalize_value join_lines
build_public_signature_payload to_iso_string to_string input = join_lines (
    ("credentialId:" <> input.credential_id)
    ∷ ("verificationId:" <> input.verification_id)
    ∷ ("issuerDomain:" <> normalize_value input.issuer_domain)
    ∷ ("issuerName:" <> normalize_value input.issuer_name)
    ∷ ("studentName:" <> normalize_value input.student_name)
    ∷ ("studentId:" <> normalize_value input.student_id)
    ∷ ("degree:" <> normalize_value input.degree)
    ∷ ("graduationYear:" <> or_else (Option.map to_string input.graduation_year) "")
    ∷ ("issuedAt:" <> to_iso_string input.issued_at)
    ∷ ("signingKeyId:" <> input.signing_key_id)
    ∷ [])
