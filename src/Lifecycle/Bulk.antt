-- ===== src/Lifecycle/Bulk.antt =====
-- `bulkIssue` of apps/api/src/modules/credential/credential.service.ts: from the CSV to the status of
-- every row, and with `commit` to the credentials.
pub mod Preview
use certiva.Prelude.{
  ℕ, Bool, true, false, not, ◌&&◌, ◌||◌, String, Option, none, some, List, [], ◌∷◌, ◌++◌, map,
  ◌===◌, ◌==◌, leb, if◌then◌else◌, filter_by, any_of, length, is_some, or_else, update_where,
}
use certiva.Text.{trim, collapse_spaces}
use certiva.Assets.{◌<>◌}
use certiva.Registry.{Credential, IssuanceBatch}
use certiva.Auth.{JwtPayload}
use certiva.Csv.{ParsedCredentialRow, CsvParseError, Parsing, parse_credential_csv}
use certiva.Lifecycle.{
  Exception, bad_request, forbidden, not_found, conflict, internal, other, unique_violation,
  Attempt, returns, throws, Registrar, M, ◌>>=◌, ◌>>◌, check, Tools, rows, resolve_id,
}
use certiva.Lifecycle.Issue.{IssueInput, issue_credential_record}
pub use certiva.Lifecycle.Bulk.Preview.{
  BulkIssueRowStatus, BulkIssueRowResult, existing_credential_row_message, is_text, is_number,
  listed, missing, missing_fields, error_result, status_message, valid, invalid, duplicate, exists,
  issued, failed,
}
unfoldable pub use certiva.Lifecycle.Bulk.Preview.{
  normalize_for_key, build_row_key, find_duplicates, occupies, lookup_existing_credential_keys,
  row_status, row_result, insert_row, sort_rows, preview_rows,
}

-- `getIssueErrorMessage`
unfoldable pub get_issue_error_message : Exception → String
get_issue_error_message (conflict m) = "A duplicate record prevented issuance."
get_issue_error_message (unique_violation columns) = "A unique constraint prevented issuance."
get_issue_error_message (bad_request m) = m
get_issue_error_message (forbidden m) = m
get_issue_error_message (not_found m) = m
get_issue_error_message (internal m) = m
get_issue_error_message (other m) = m

-- What one row becomes when its credential was issued, or was not.
unfoldable pub settle_row : Attempt Credential → BulkIssueRowResult → BulkIssueRowResult
unfolding get_issue_error_message
settle_row (returns c) r = record r {
  status = issued;
  verification_id = some c.verification_id;
  verification_code = some c.verification_code;
  metadata_uri = some c.metadata_uri;
}
settle_row (throws (conflict m)) r = record r {
  status = exists;
  message = existing_credential_row_message;
}
settle_row (throws e) r = record r { status = failed; message = get_issue_error_message e }

abbrev pub is_valid : BulkIssueRowResult → Bool
is_valid r = elim r.status [ valid ↦ true | _ ↦ false ]

abbrev pub is_issued : BulkIssueRowResult → Bool
is_issued r = elim r.status [ issued ↦ true | _ ↦ false ]

abbrev pub is_failed : BulkIssueRowResult → Bool
is_failed r = elim r.status [ failed ↦ true | _ ↦ false ]

abbrev pub input_of : String → BulkIssueRowResult → IssueInput
input_of batch_id r = record {
  student_name = r.student_name;
  student_id = r.student_id;
  degree = r.degree;
  graduation_year = none;
  batch_id = some batch_id;
}

unfoldable pub issued_as :
    BulkIssueRowResult → Attempt Credential × Registrar → BulkIssueRowResult × Registrar
unfolding settle_row
issued_as r (a, s) = (settle_row a r, s)

-- One round of the loop that issues; each row meets its own services.
unfoldable pub issue_row :
    Tools → String → String → BulkIssueRowResult → Registrar → BulkIssueRowResult × Registrar
unfolding issued_as
issue_row t issuer_id batch_id r s =
    if is_valid r
    then issued_as r (issue_credential_record t issuer_id (input_of batch_id r) s)
    else (r, s)

unfoldable pub issue_rows :
    (ℕ → Tools)
    → String
    → String
    → List BulkIssueRowResult
    → Registrar
    → List BulkIssueRowResult × Registrar
unfolding issue_row
issue_rows t issuer_id batch_id [] s = ([], s)
issue_rows t issuer_id batch_id (r ∷ rs) s =
    let (r', s') = issue_row (t r.row_number) issuer_id batch_id r s in
    let (rs', s'') = issue_rows t issuer_id batch_id rs s' in (r' ∷ rs', s'')

pub record BulkResponse : Type 0 where
  pub preview : Bool
  pub total_rows : ℕ
  pub valid_rows : ℕ
  pub invalid_rows : ℕ
  pub issued_rows : ℕ
  pub failed_rows : ℕ
  pub rows : List BulkIssueRowResult

-- `isInvalidRowStatus` and `isValidRowStatus`
abbrev pub is_invalid_row_status : BulkIssueRowStatus → Bool
is_invalid_row_status s = elim s [ invalid ↦ true | duplicate ↦ true | exists ↦ true | _ ↦ false ]

abbrev pub is_valid_row_status : BulkIssueRowStatus → Bool
is_valid_row_status s = elim s [ valid ↦ true | issued ↦ true | failed ↦ true | _ ↦ false ]

abbrev pub counts_invalid : BulkIssueRowResult → Bool
counts_invalid r = is_invalid_row_status r.status

abbrev pub counts_valid : BulkIssueRowResult → Bool
counts_valid r = is_valid_row_status r.status

unfoldable pub build_bulk_response : Bool → List BulkIssueRowResult → BulkResponse
build_bulk_response preview rs = record {
  preview = preview;
  total_rows = length rs;
  valid_rows = length (filter_by counts_valid rs);
  invalid_rows = length (filter_by counts_invalid rs);
  issued_rows = length (filter_by is_issued rs);
  failed_rows = length (filter_by is_failed rs);
  rows = rs;
}

abbrev pub with_batches : List IssuanceBatch → Registrar → Registrar
with_batches batches s = record s { batches = batches }

abbrev pub has_batch_id : String → IssuanceBatch → Bool
has_batch_id id b = b.id === id

unfoldable pub new_batch : String → String → JwtPayload → ℕ → IssuanceBatch
new_batch id issuer_id admin total = record {
  id = id;
  issuer_id = issuer_id;
  uploaded_by = admin.email;
  total_rows = total;
  issued_rows = 0;
  failed_rows = 0;
}

abbrev pub counted_batch : List BulkIssueRowResult → IssuanceBatch → IssuanceBatch
counted_batch rs b = record b {
  issued_rows = length (filter_by is_issued rs);
  failed_rows = length (filter_by is_failed rs);
}

-- The part after the preview: the batch, the credentials, and the counts of the batch.
unfoldable pub commit_rows :
    (ℕ → Tools) → JwtPayload → String → List BulkIssueRowResult → M BulkResponse
unfolding issue_rows build_bulk_response new_batch
commit_rows t admin issuer_id rs s =
    let id = (t 0).new_batch_id in
    let (rs', s') =
      issue_rows t issuer_id id rs
        (with_batches (s.batches ++ new_batch id issuer_id admin (length rs) ∷ []) s) in
    (
      returns (build_bulk_response false rs'),
      with_batches (update_where (has_batch_id id) (counted_batch rs') s'.batches) s',
    )

-- `if (!dto.commit) return preview`
unfoldable pub answer_rows :
    (ℕ → Tools) → JwtPayload → String → Bool → List BulkIssueRowResult → M BulkResponse
unfolding commit_rows build_bulk_response
answer_rows t admin issuer_id commit rs s =
    if commit
    then commit_rows t admin issuer_id rs s
    else (returns (build_bulk_response true rs), s)

pub record BulkIssueDto : Type 0 where
  pub csv : String
  pub commit : Option Bool

abbrev pub has_text : String → Bool
has_text csv = not (trim csv === "")

abbrev pub has_lines : Parsing → Bool
has_lines parsed = not (length parsed.rows == 0 && length parsed.errors == 0)

-- The statuses, against the credentials as they are now, and the answer.
unfoldable pub answer_parsed : (ℕ → Tools) → JwtPayload → String → Bool → Parsing → M BulkResponse
unfolding preview_rows answer_rows
answer_parsed t admin issuer_id commit parsed s =
    answer_rows t admin issuer_id commit
      (preview_rows (t 0).to_lower_case issuer_id parsed (rows s)) s

unfoldable pub bulk_issue : (ℕ → Tools) → JwtPayload → BulkIssueDto → M BulkResponse
unfolding answer_parsed parse_credential_csv
bulk_issue t admin dto = do
  issuer_id ← resolve_id (t 0).setting admin
  check (has_text dto.csv) (bad_request "CSV content is required.")
  let parsed = parse_credential_csv dto.csv
  check (has_lines parsed) (bad_request "No credential rows found in the CSV file.")
  answer_parsed t admin issuer_id (or_else dto.commit false) parsed
