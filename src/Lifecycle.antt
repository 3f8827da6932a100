-- ===== src/Lifecycle.antt =====
-- apps/api/src/modules/credential/credential.service.ts: issuing, revoking, deleting and securing
-- credentials. The state is the tables that the service reads and writes and the queue; an operation
-- is a function of the state that returns or throws, and keeps what it has written before a throw.
-- Storage, PDF reading, cryptography, `toLowerCase`, the clock and random draws are arguments (`Tools`). The answer
-- of an operation is the row from which `toCredentialResponse` builds it.
mod Tests
pub mod Fixtures
pub mod Payload
pub mod Issue
pub mod Revoke
pub mod Delete
pub mod SecurePdf
pub mod Bulk
pub mod Rows
pub mod Quiet
pub mod Growth
pub mod Rules
pub mod Revoking
pub mod Deleting
pub mod Securing
pub mod Issuing
pub mod Counting
pub mod BulkIssuing
pub mod BulkCounts
pub mod Steps
pub mod Life
pub mod Final
pub mod Isolation
pub mod Completion
pub mod Revocation
pub mod Anchored
use certiva.Prelude.{
  ℕ, Bool, true, false, String, Option, none, some, List, [], ◌∷◌, Result, ok, err, ◌===◌,
  if◌then◌else◌, find_first, map, or_else,
}
use certiva.Registry.{Credential, Issuer, IssuerStatus, IssuanceBatch, SigningKey}
use certiva.Auth.{Accounts, JwtPayload, AdminRole, AuditEvent}
use certiva.Auth
use certiva.Anchoring
use certiva.Anchoring.Queue.{Add, Producer}
use certiva.Institution
use certiva.Institution.{Setting, UpdateInstitutionDto, has_issuer_id, resolve_institution_id}

-- What a call throws: the exceptions of NestJS, Prisma's P2002 with its columns, and other errors.
pub data Exception : Type 0 where
  bad_request forbidden not_found conflict internal other : (message : String) → Exception
  unique_violation : (columns : List String) → Exception

pub data Attempt (A : Type 0) : Type 0 where
  returns : A → Attempt A
  throws : Exception → Attempt A

pub record Registrar : Type 0 where
  pub accounts : Accounts
  pub producer : Producer
  pub batches : List IssuanceBatch

abbrev pub M : Type 0 → Type 0
M A = Registrar → Attempt A × Registrar

-- Statements that follow one another.
abbrev pub run_on : {A B : Type 0} → Attempt A × Registrar → (A → M B) → Attempt B × Registrar
run_on (returns a, s) k = k a s
run_on (throws e, s) k = (throws e, s)

infixl 5 ◌>>=◌ ◌>>◌
abbrev pub ◌>>=◌ : {A B : Type 0} → M A → (A → M B) → M B
◌>>=◌ m k s = run_on (m s) k

abbrev pub ◌>>◌ : {B : Type 0} → M (Unit {0}) → M B → M B
m >> k = m >>= λ _. k

abbrev pub pure : {A : Type 0} → A → M A
pure a s = (returns a, s)

abbrev pub throw : {A : Type 0} → Exception → M A
throw e s = (throws e, s)

-- `if (!condition) throw e`
abbrev pub check : Bool → Exception → M (Unit {0})
check true e = pure tt
check false e = throw e

-- A call of a service, whose error is thrown on.
abbrev pub call : {A : Type 0} → Result A → M A
call (ok a) = pure a
call (err m) = throw (other m)

-- What `buildAssetRecord` hands to the storage of assets.
pub record AssetIssuer : Type 0 where
  pub id : String
  pub name : String
  pub display_name : Option String
  pub domain : String
  pub logo_url : Option String
  pub website_url : Option String
  pub status : IssuerStatus

pub record AssetRecord : Type 0 where
  pub id : String
  pub credential_external_id : String
  pub verification_id : String
  pub verification_code : String
  pub signed_verification_token : String
  pub student_name : String
  pub student_id : String
  pub degree : String
  pub issued_at : ℕ
  pub secure_pdf_enabled : Bool
  pub document_hash : Option String
  pub revoked : Bool
  pub revoked_at : Option ℕ
  pub revocation_reason : Option String
  pub issuer : AssetIssuer

-- `CredentialAssetBundle`, with the metadata document as its text.
pub record AssetBundle : Type 0 where
  pub metadata_uri : String
  pub metadata_json : String
  pub qr_payload : String
  pub qr_code_uri : String
  pub certificate_uri : Option String
  pub verification_url : String
  pub document_hash : Option String
  pub file_name : Option String
  pub mime_type : Option String
  pub file_size : Option ℕ

pub record SigningInput : Type 0 where
  pub issuer_id : String
  pub credential_id : String
  pub verification_id : String
  pub issuer_domain : String
  pub issuer_name : String
  pub student_name : String
  pub student_id : String
  pub degree : String
  pub graduation_year : Option ℕ
  pub issued_at : ℕ

pub record CredentialSignature : Type 0 where
  pub public_payload : String
  pub signature : String
  pub signed_at : ℕ
  pub signing_key : SigningKey
  pub vc_proof_value : String
  pub vc_proof_created : ℕ
  pub vc_document : String

pub record UploadedFile : Type 0 where
  pub buffer : String
  pub mimetype : String
  pub size : ℕ
  pub originalname : Option String

-- The services that a call meets: the environment, the queue, the clock, the random draws, SHA-256,
-- HMAC, the signing keys, the storage of assets, the reading of PDFs, and whether the database
-- commits.
pub record Tools : Type 0 where
  pub setting : Setting
  pub add : Add
  pub now : ℕ
  pub new_credential_id : String
  pub new_verification_id : String
  pub new_verification_code : String
  pub new_batch_id : String
  pub jwt_secret : String
  pub to_iso_string : ℕ → String
  pub to_lower_case : String → String
  pub hash_string : String → String
  pub hmac_sha256 : String → String → String
  pub hash_buffer : String → String
  pub sign_credential : SigningInput → Result CredentialSignature
  pub generate_and_persist : AssetRecord → Result AssetBundle
  pub update_metadata : AssetRecord → Result AssetBundle
  pub delete_assets : String → Result (Unit {0})
  pub prepare_uploaded_pdf : UploadedFile → Result (Unit {0})
  pub extract_reference : String → Result (Option String)
  pub commits : Result (Unit {0})

unfoldable pub build_asset_record : Credential → Issuer → AssetRecord
build_asset_record c issuer = record {
  id = c.id;
  credential_external_id = c.credential_external_id;
  verification_id = c.verification_id;
  verification_code = c.verification_code;
  signed_verification_token = c.signed_verification_token;
  student_name = c.student_name;
  student_id = c.student_id;
  degree = c.degree;
  issued_at = c.issued_at;
  secure_pdf_enabled = c.secure_pdf_enabled;
  document_hash = c.document_hash;
  revoked = c.revoked;
  revoked_at = c.revoked_at;
  revocation_reason = c.revocation_reason;
  issuer = record {
    id = issuer.id;
    name = issuer.name;
    display_name = issuer.display_name;
    domain = issuer.domain;
    logo_url = issuer.logo_url;
    website_url = issuer.website_url;
    status = issuer.status;
  };
}

-- The credentials of the state, which the queue's producer shares.
abbrev pub rows : Registrar → List Credential
rows s = s.producer.store.credentials

abbrev pub with_rows : List Credential → Registrar → Registrar
with_rows cs s = record s {
  producer = record s.producer { store = record s.producer.store { credentials = cs } };
}

-- `credential.update({ where: { id } })` of a row that has been read.
unfoldable pub update_credential : String → (Credential → Credential) → M (Unit {0})
unfolding Anchoring.update_credential
update_credential id f s = (
  returns tt,
  record s {
    producer = record s.producer { store = Anchoring.update_credential id f s.producer.store };
  },
)

unfoldable pub log : String → JwtPayload → Option String → M (Unit {0})
unfolding Auth.log
log action admin target s = (
  returns tt,
  record s {
    accounts =
        Auth.log (record { action = action; actor_admin_id = some admin.sub; target_id = target })
          s.accounts;
  },
)

unfoldable pub required : Option Credential → M Credential
required none = throw (not_found "Credential not found")
required (some c) = pure c

-- `findUnique` by id, or 404.
unfoldable pub find_credential : String → M Credential
unfolding required Anchoring.has_id
find_credential id s = required (find_first (Anchoring.has_id id) (rows s)) s

abbrev pub is_visible : String → Credential → Bool
is_visible id c = if c.id === id then elim c.deleted_at [ none ↦ true | some t ↦ false ] else false

-- `findOneOrThrow`: a deleted credential is not found.
unfoldable pub find_one_or_throw : String → M Credential
unfolding required
find_one_or_throw id s = required (find_first (is_visible id) (rows s)) s

-- The update of an account that does not exist is Prisma's error, the rest is a 400.
unfoldable pub resolve_error : String → Exception
resolve_error m = if m === "P2025" then other m else bad_request m

unfoldable pub resolved : {A : Type 0} → Registrar → Result A × Accounts → Attempt A × Registrar
resolved s (ok a, accounts) = (returns a, record s { accounts = accounts })
resolved s (err m, accounts) = (throws (resolve_error m), record s { accounts = accounts })

unfoldable pub resolve_id : Setting → JwtPayload → M String
unfolding resolved resolve_error
resolve_id v admin s = resolved s (resolve_institution_id v admin s.accounts)

abbrev pub is_admin : AdminRole → Bool
is_admin r = elim r [ AdminRole.admin ↦ true | _ ↦ false ]

unfoldable pub same_issuer : String → String → M (Unit {0})
same_issuer issuer_id credential_issuer_id =
    check (issuer_id === credential_issuer_id)
      (forbidden "You do not have access to this credential")

-- `assertCredentialAccess`: only the role ADMIN is held to its institution.
unfoldable pub assert_credential_access : Setting → JwtPayload → String → M (Unit {0})
unfolding resolve_id same_issuer
assert_credential_access v admin credential_issuer_id =
    if is_admin admin.role
    then (do issuer_id ← resolve_id v admin; same_issuer issuer_id credential_issuer_id)
    else pure tt

abbrev pub on_producer : (Producer → Producer) → M (Unit {0})
on_producer f s = (returns tt, record s { producer = f s.producer })

-- A credential's issuer is the row of the table of issuers.
abbrev pub with_issuer : List Issuer → Credential → Credential
with_issuer issuers c = record c {
  issuer = or_else (find_first (has_issuer_id c.issuer.id) issuers) c.issuer;
}

abbrev pub attempted : Result Issuer → Attempt Issuer
attempted (ok i) = returns i
attempted (err m) = throws (other m)

abbrev pub after_update : Registrar → Result Issuer × Accounts → Attempt Issuer × Registrar
after_update s (r, accounts) = (
  attempted r,
  with_rows (map (with_issuer accounts.issuers) (rows s)) (record s { accounts = accounts }),
)

-- `updateInstitution` of institution.service.ts, with the credentials that include the issuer.
unfoldable pub update_institution : Setting → UpdateInstitutionDto → Option String → M Issuer
update_institution v dto admin_id s =
    after_update s (Institution.update_institution v dto admin_id s.accounts)
