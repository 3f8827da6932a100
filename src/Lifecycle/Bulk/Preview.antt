-- ===== src/Lifecycle/Bulk/Preview.antt =====
-- The preview of `bulkIssue` in apps/api/src/modules/credential/credential.service.ts: the status of
-- every row of the CSV.
use certiva.Prelude.{
  ℕ, Bool, not, ◌&&◌, ◌||◌, String, Option, none, List, [], ◌∷◌, ◌++◌, map, ◌===◌, ◌==◌, leb,
  if◌then◌else◌, filter_by, any_of, length, is_some,
}
use certiva.Text.{trim, collapse_spaces}
use certiva.Assets.{◌<>◌}
use certiva.Registry.{Credential}
use certiva.Csv.{ParsedCredentialRow, CsvParseError, Parsing}

pub data BulkIssueRowStatus : Type 0 where
  valid invalid duplicate exists issued failed : BulkIssueRowStatus

pub record BulkIssueRowResult : Type 0 where
  pub row_number : ℕ
  pub student_name : String
  pub student_id : String
  pub degree : String
  pub metadata_uri : Option String
  pub document_hash : Option String
  pub status : BulkIssueRowStatus
  pub message : String
  pub verification_id : Option String
  pub verification_code : Option String

-- `existing_credential_row_message` is EXISTING_CREDENTIAL_ROW_MESSAGE.
abbrev pub existing_credential_row_message : String
existing_credential_row_message = "Credential already exists for this student ID and degree."

-- `normalizeForKey` and `buildRowKey`; `lower` is `toLowerCase`.
unfoldable pub normalize_for_key : (String → String) → String → String
normalize_for_key lower value = collapse_spaces (lower (trim value))

unfoldable pub build_row_key : (String → String) → String → String → String
unfolding normalize_for_key
build_row_key lower student_id degree =
    normalize_for_key lower student_id <> ("::" <> normalize_for_key lower degree)

abbrev pub is_text : String → String → Bool
is_text t u = u === t

abbrev pub is_number : ℕ → ℕ → Bool
is_number n m = m == n

-- The loop of `findDuplicateRowNumbers`; `seen` holds the keys so far.
unfoldable pub find_duplicates : (String → String) → List ParsedCredentialRow → List String → List ℕ
unfolding build_row_key
find_duplicates lower [] seen = []
find_duplicates lower (r ∷ rest) seen =
    let student_id = trim r.student_id in
    let degree = trim r.degree in
    let key = build_row_key lower student_id degree in
    let skips = student_id === "" || degree === "" in
    let repeats = not skips && any_of (is_text key) seen in
    let later = find_duplicates lower rest (if skips || repeats then seen else key ∷ seen) in
    if repeats then r.row_number ∷ later else later

-- WHERE of `lookupExistingCredentialKeys`.
unfoldable pub occupies : String → List String → Credential → Bool
occupies issuer_id student_ids c =
    c.issuer.id === issuer_id
    && (any_of (is_text c.student_id) student_ids && (not (is_some c.deleted_at) && not c.revoked))

-- `lookupExistingCredentialKeys`
unfoldable pub lookup_existing_credential_keys :
    (String → String) → String → List ParsedCredentialRow → List Credential → List String
unfolding occupies build_row_key
lookup_existing_credential_keys lower issuer_id parsed credentials =
    let student_ids =
      filter_by (λ id. not (id === ""))
        (map (λ (r : ParsedCredentialRow). trim r.student_id) parsed) in
    map (λ (c : Credential). build_row_key lower c.student_id c.degree)
      (filter_by (occupies issuer_id student_ids) credentials)

-- `missingFields.join(', ')`
abbrev pub listed : List String → String
listed [] = ""
listed (name ∷ []) = name
listed (name ∷ next ∷ rest) = name <> (", " <> listed (next ∷ rest))

abbrev pub missing : String → String → List String
missing name value = if value === "" then name ∷ [] else []

abbrev pub missing_fields : ParsedCredentialRow → List String
missing_fields r =
    missing "studentName" (trim r.student_name)
    ++ (missing "studentId" (trim r.student_id) ++ missing "degree" (trim r.degree))

abbrev pub error_result : CsvParseError → BulkIssueRowResult
error_result e = record {
  row_number = e.row_number;
  student_name = "";
  student_id = "";
  degree = "";
  metadata_uri = none;
  document_hash = none;
  status = invalid;
  message = e.message;
  verification_id = none;
  verification_code = none;
}

-- The status of a row that has been read.
unfoldable pub row_status :
    (String → String) → List ℕ → List String → ParsedCredentialRow → BulkIssueRowStatus
unfolding build_row_key
row_status lower duplicates existing r =
    if not (length (missing_fields r) == 0)
    then invalid
    else if any_of (is_number r.row_number) duplicates
    then duplicate
    else if any_of (is_text (build_row_key lower (trim r.student_id) (trim r.degree))) existing
    then exists
    else valid

abbrev pub status_message : ParsedCredentialRow → BulkIssueRowStatus → String
status_message r s = elim s [
  | valid ↦ "Registry record, QR code, metadata, and mapping reference will be generated."
  | invalid ↦ "Missing required fields: " <> (listed (missing_fields r) <> ".")
  | duplicate ↦ "Duplicate row in this CSV upload."
  | exists ↦ existing_credential_row_message
  | issued ↦ ""
  | failed ↦ ""
]

unfoldable pub row_result :
    (String → String) → List ℕ → List String → ParsedCredentialRow → BulkIssueRowResult
unfolding row_status
row_result lower duplicates existing r = record {
  row_number = r.row_number;
  student_name = trim r.student_name;
  student_id = trim r.student_id;
  degree = trim r.degree;
  metadata_uri = none;
  document_hash = r.document_hash;
  status = row_status lower duplicates existing r;
  message = status_message r (row_status lower duplicates existing r);
  verification_id = none;
  verification_code = none;
}

-- `sort((a, b) => a.rowNumber - b.rowNumber)`, which keeps the order of equals.
unfoldable pub insert_row : BulkIssueRowResult → List BulkIssueRowResult → List BulkIssueRowResult
insert_row r [] = r ∷ []
insert_row r (x ∷ xs) = if leb r.row_number x.row_number then r ∷ (x ∷ xs) else x ∷ insert_row r xs

unfoldable pub sort_rows : List BulkIssueRowResult → List BulkIssueRowResult
unfolding insert_row
sort_rows [] = []
sort_rows (r ∷ rs) = insert_row r (sort_rows rs)

unfoldable pub preview_rows :
    (String → String) → String → Parsing → List Credential → List BulkIssueRowResult
unfolding find_duplicates lookup_existing_credential_keys row_result sort_rows
preview_rows lower issuer_id parsed credentials =
    let duplicates = find_duplicates lower parsed.rows [] in
    let existing = lookup_existing_credential_keys lower issuer_id parsed.rows credentials in
    sort_rows
      (map error_result parsed.errors ++ map (row_result lower duplicates existing) parsed.rows)
