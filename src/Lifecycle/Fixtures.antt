-- ===== src/Lifecycle/Fixtures.antt =====
-- A registry of two credentials, and services that answer.
use certiva.Prelude.{true, false, some, none, List, [], ◌∷◌, ◌++◌, Result, ok}
use certiva.Text.{to_lower_case}
use certiva.Registry.{Credential}
use certiva.Auth.{Accounts, JwtPayload, owner}
use certiva.Anchoring.Queue.{Add}
use certiva.Fixtures.{issuer, key, credential, other}
use certiva.Lifecycle.{Registrar, Tools, AssetBundle}
use certiva.Lifecycle.Issue.{IssueInput}
use certiva.Lifecycle.Revoke.{RevokeCredentialDto}

abbrev pub budi : Credential
budi = record other { student_name = "Budi"; student_id = "18" }

abbrev pub accounts : Accounts
accounts = record { admins = []; issuers = issuer ∷ []; audit_log = [] }

abbrev pub registry : List Credential → Registrar
registry credentials = record {
  accounts = accounts;
  producer = record {
    store = record { credentials = credentials; anchor_logs = [] };
    jobs = [];
    enabled = true;
  };
  batches = [];
}

abbrev pub two : Registrar
two = registry (budi ∷ credential ∷ [])

abbrev pub bundle : AssetBundle
bundle = record {
  metadata_uri = "m2";
  metadata_json = "{}";
  qr_payload = "q";
  qr_code_uri = "q2";
  certificate_uri = none;
  verification_url = "u2";
  document_hash = none;
  file_name = none;
  mime_type = none;
  file_size = none;
}

-- Services that answer, with a queue and a storage of one's choice.
abbrev pub tools : Add → Result AssetBundle → Tools
tools add stored = record {
  setting = record {
    development = false;
    issuer_wallet = none;
    get_address = λ a. ok a;
    new_id = "iss2";
  };
  add = add;
  now = 2000;
  new_credential_id = "crd_3";
  new_verification_id = "vrf_3";
  new_verification_code = "CV-3";
  new_batch_id = "batch_1";
  jwt_secret = "secret";
  to_iso_string = λ n. "2026";
  to_lower_case = to_lower_case;
  hash_string = λ s. s;
  hmac_sha256 = λ s k. s;
  hash_buffer = λ b. b;
  sign_credential = λ i. ok (record {
    public_payload = "payload";
    signature = "good";
    signed_at = 2000;
    signing_key = key;
    vc_proof_value = "z";
    vc_proof_created = 2000;
    vc_document = "{}";
  });
  generate_and_persist = λ r. stored;
  update_metadata = λ r. stored;
  delete_assets = λ id. ok tt;
  prepare_uploaded_pdf = λ f. ok tt;
  extract_reference = λ b. ok (some "vrf_1");
  commits = ok tt;
}

abbrev pub accepting : Add
accepting jobs job = ok (jobs ++ job ∷ [])

abbrev pub working : Tools
working = tools accepting (ok bundle)

abbrev pub the_owner : JwtPayload
the_owner = record {
  sub = "adm_1";
  username = some "ani";
  email = "ani@certiva.local";
  role = owner;
  issuer_id = some "iss1";
  token_version = 0;
}

abbrev pub reason : RevokeCredentialDto
reason = record { reason = "DATA_CORRECTION"; notes = none }

abbrev pub input : IssueInput
input = record {
  student_name = "Citra";
  student_id = "19";
  degree = "S1";
  graduation_year = none;
  batch_id = none;
}
