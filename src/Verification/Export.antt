-- ===== src/Verification/Export.antt =====
-- `getCredentialProof` and `getCredentialVc` of
-- apps/api/src/modules/verification/verification.service.ts: the two public exports.
use certiva.Prelude.{
  ℕ, Bool, false, ◌&&◌, ◌||◌, ◌≡◌, ◌↔◌, refl, String, Option, none, some, Result, ok, err, ◌===◌,
  if◌then◌else◌, truthy, or_else, is_some, find_first, arith,
}
use certiva.Registry.{Credential, SigningKey}
use certiva.Verification.{Db, build_signature_block, signature_of}
use certiva.Verification.Lookup.{not_deleted}

-- The proof bundle.
pub record ProofBundle : Type 0 where
  pub credential_id : String
  pub public_payload : String
  pub signature : String
  pub signature_algorithm : String
  pub issuer_domain : String
  pub issuer_name : String
  pub signing_key_id : String
  pub public_key : String
  pub anchored : Bool
  pub chain_id : Option ℕ
  pub tx_hash : Option String
  pub anchored_at : Option ℕ

-- `OR: [{ credentialExternalId: id }, { id }]`
unfoldable pub export_query : String → Credential → Bool
export_query id c = c.credential_external_id === id || c.id === id

bundle_of : Credential → String → String → SigningKey → ProofBundle
bundle_of c payload signature key = record {
  credential_id = c.credential_external_id;
  public_payload = payload;
  signature = signature;
  signature_algorithm = or_else c.signature_algorithm "Ed25519";
  issuer_domain = c.issuer.domain;
  issuer_name = or_else c.issuer.display_name c.issuer.name;
  signing_key_id = key.key_id;
  public_key = key.public_key;
  anchored = truthy c.tx_hash;
  chain_id = c.chain_id;
  tx_hash = c.tx_hash;
  anchored_at = c.anchored_at;
}

signed_bundle : Credential → Option String → Option String → Option SigningKey → Result ProofBundle
signed_bundle c (some signature) (some payload) (some key) =
    if truthy (some signature) && truthy (some payload)
    then ok (bundle_of c payload signature key)
    else err "No verifiable signature for this credential"
signed_bundle c _ _ _ = err "No verifiable signature for this credential"

proof_of : Option Credential → Result ProofBundle
proof_of none = err "No verifiable signature for this credential"
proof_of (some c) = signed_bundle c c.signature c.public_payload c.signing_key

-- `getCredentialProof`
unfoldable pub get_credential_proof : Db → String → Result ProofBundle
unfolding proof_of signed_bundle bundle_of export_query not_deleted
get_credential_proof db id =
    proof_of (find_first (λ c. not_deleted c && export_query id c) db.credentials)

vc_of : Option Credential → Result String
vc_of none = err "No verifiable credential export for this credential"
vc_of (some c) = elim c.vc_document [
  | none ↦ err "No verifiable credential export for this credential"
  | some document ↦
      if c.revoked || is_some c.deleted_at
      then err "This credential has been revoked."
      else ok document
]

-- `getCredentialVc`
unfoldable pub get_credential_vc : Db → String → Result String
unfolding vc_of export_query
get_credential_vc db id = vc_of (find_first (export_query id) db.credentials)

bundle_agrees :
    (check : String → String → String → Bool) (c : Credential) (signature payload : Option String)
    (key : Option SigningKey) (b : ProofBundle)
    → signed_bundle c signature payload key ≡ ok b
    → signature_of check (or_else c.signature_algorithm "Ed25519") signature payload key
      ≡ some (record {
        algorithm = b.signature_algorithm;
        signing_key_id = b.signing_key_id;
        public_key = b.public_key;
        signature_valid = check b.public_payload b.signature b.public_key;
      })
unfolding signed_bundle bundle_of signature_of
bundle_agrees check c (some s) (some p) (some k) b e = ground arith
bundle_agrees check c none p k b e = cc
bundle_agrees check c (some s) none k b e = cc
bundle_agrees check c (some s) (some p) none b e = cc

-- Checking an exported bundle offline gives the server's own verdict on the signature: a bundle is
-- exported only for a live credential of that id, and its key, algorithm and the result of checking
-- its payload are those of the signature block that a verification of the credential shows.
pub proof-offline :
    (check : String → String → String → Bool) (db : Db) (id : String) (b : ProofBundle)
    → get_credential_proof db id ≡ ok b
    → (c : Credential) × (find_first (λ d. not_deleted d && export_query id d) db.credentials
        ≡ some c)
      × (build_signature_block check c
          ≡ some (record {
            algorithm = b.signature_algorithm;
            signing_key_id = b.signing_key_id;
            public_key = b.public_key;
            signature_valid = check b.public_payload b.signature b.public_key;
          }))
unfolding get_credential_proof build_signature_block
proof-offline check db id b e =
    go (find_first (λ d. not_deleted d && export_query id d) db.credentials) refl e
  where
    go :
        (o : Option Credential)
        → find_first (λ d. not_deleted d && export_query id d) db.credentials ≡ o
        → proof_of o ≡ ok b
        → (c : Credential) × (find_first (λ d. not_deleted d && export_query id d) db.credentials
            ≡ some c)
          × (build_signature_block check c
              ≡ some (record {
                algorithm = b.signature_algorithm;
                signing_key_id = b.signing_key_id;
                public_key = b.public_key;
                signature_valid = check b.public_payload b.signature b.public_key;
              }))
    go none f p = cc
    go (some c) f p = (c, f, bundle_agrees check c c.signature c.public_payload c.signing_key b p)

-- The VC export serves the stored document exactly for a credential that has one and is neither
-- revoked nor deleted; it looks at deleted rows too.
pub vc_iff :
    (db : Db) (id document : String)
    → (get_credential_vc db id ≡ ok document) ↔ (
        (c : Credential) × (find_first (export_query id) db.credentials ≡ some c)
        × (c.vc_document ≡ some document)
        × (c.revoked ≡ false)
        × (c.deleted_at ≡ none))
unfolding get_credential_vc
vc_iff db id document = go (find_first (export_query id) db.credentials) refl
  where
    go :
        (o : Option Credential)
        → find_first (export_query id) db.credentials ≡ o
        → (vc_of o ≡ ok document) ↔ (
            (c : Credential) × (find_first (export_query id) db.credentials ≡ some c)
            × (c.vc_document ≡ some document)
            × (c.revoked ≡ false)
            × (c.deleted_at ≡ none))
    go none f = (λ e. cc, λ (c, g, _, _, _). cc)
    go (some c) f = (
      λ e. (c, f, ground arith, ground arith, ground arith),
      λ (d, g, v, r, n). ground (arith, f, g, v, r, n),
    )
