-- ===== src/Csv.antt =====
-- apps/api/src/modules/credential/credential.bulk.utils.ts: the CSV that a bulk issue takes. The
-- characters that are tested for are ASCII, so a text is read by code points.
mod Tests
pub mod Line
pub mod Complete
pub mod Rows
pub mod Quoting
use Prim.Native.Char.{Char, code}
use Prim.Native.String
use mathlib.Core.Option
use certiva.Prelude.{
  ℕ, ◌+◌, Bool, true, false, not, ◌&&◌, ◌||◌, String, Option, none, some, List, [], ◌∷◌, ◌++◌, map,
  Result, ok, err, ◌===◌, ◌==◌, ltb, if◌then◌else◌, filter_by, length, head_of, truthy, zero, suc,
}
use certiva.Text.{trim, to_lower_case, is_hex64, is_space}
use certiva.Csv.Line.{parse_csv_line}

-- MAX_CSV_ROWS of dto/bulk-issue-credentials.dto.ts
abbrev pub max_csv_rows : ℕ
max_csv_rows = 5000

pub record ParsedCredentialRow : Type 0 where
  pub row_number : ℕ
  pub student_name : String
  pub student_id : String
  pub degree : String
  pub document_hash : Option String

pub record CsvParseError : Type 0 where
  pub row_number : ℕ
  pub message : String

-- The variables of the loop; the first three are the result.
pub record Parsing : Type 0 where
  pub rows : List ParsedCredentialRow
  pub errors : List CsvParseError
  pub has_header : Bool
  pub first_data_line_seen : Bool

-- `replace(/^\uFEFF/, '')`
unfoldable pub strip_bom : String → String
strip_bom String.[] = String.[]
strip_bom (String.◌∷◌ c s) = if code c == 0xfeff then s else String.◌∷◌ c s

starts_with_newline : String → Bool
starts_with_newline String.[] = false
starts_with_newline (String.◌∷◌ c s) = code c == 10

add_to_first : Char → List String → List String
add_to_first c [] = String.◌∷◌ c String.[] ∷ []
add_to_first c (line ∷ lines) = String.◌∷◌ c line ∷ lines

-- `split(/\r?\n/)`
unfoldable pub split_lines : String → List String
unfolding starts_with_newline add_to_first
split_lines String.[] = String.[] ∷ []
split_lines (String.◌∷◌ c s) =
    let lines = split_lines s in
    if code c == 10
    then String.[] ∷ lines
    else if code c == 13 && starts_with_newline s
    then lines
    else add_to_first c lines

-- `slice(0, n)`
abbrev pub first_lines : ℕ → List String → List String
first_lines zero lines = []
first_lines (suc n) [] = []
first_lines (suc n) (line ∷ lines) = line ∷ first_lines n lines

-- `replace(/[\s_-]+/g, '')`
drop_separators : String → String
drop_separators String.[] = String.[]
drop_separators (String.◌∷◌ c s) =
    let rest = drop_separators s in
    if is_space (code c) || (code c == 95 || code c == 45) then rest else String.◌∷◌ c rest

unfoldable pub header_name : String → String
unfolding drop_separators
header_name value = drop_separators (to_lower_case (trim value))

unfoldable pub is_header_row : List String → Bool
unfolding header_name
is_header_row (a ∷ b ∷ c ∷ rest) =
    header_name a === "studentname" && (header_name b === "studentid" && header_name c === "degree")
is_header_row _ = false

abbrev pub add_error : ℕ → String → Parsing → Parsing
add_error n message st = record st {
  errors = st.errors ++ record { row_number = n; message = message } ∷ [];
}

abbrev pub is_blank : String → Bool
is_blank line = trim line === ""

abbrev pub extras_of : List String → List String
extras_of [] = []
extras_of (hash ∷ rest) = filter_by (λ value. not (is_blank value)) rest

-- `documentHash?.trim().toLowerCase()`
unfoldable pub normalized_hash : Option String → Option String
normalized_hash hash = Option.map (λ h. to_lower_case (trim h)) hash

unfoldable pub valid_hash : Option String → Bool
valid_hash none = true
valid_hash (some h) = if truthy (some h) then is_hex64 h else true

-- The rest of the loop's body, for a line that is not the header.
unfoldable pub add_row : ℕ → List String → Parsing → Parsing
unfolding normalized_hash valid_hash
add_row n (name ∷ id ∷ degree ∷ rest) st =
    let hash = normalized_hash (head_of rest) in
    if not (length (extras_of rest) == 0)
    then add_error n
        "Too many columns. Expected studentName, studentId, degree, and optional documentHash." st
    else if not (valid_hash hash)
    then add_error n "documentHash must be a 64-character SHA-256 hex value." st
    else record st {
      rows =
          st.rows
          ++ record {
            row_number = n;
            student_name = name;
            student_id = id;
            degree = degree;
            document_hash = if truthy hash then hash else none;
          }
            ∷ [];
    }
add_row n _ st = add_error n "Expected at least 3 columns (studentName, studentId, degree)." st

abbrev pub see_line : Parsing → Parsing
see_line st = record st { first_data_line_seen = true }

unfoldable pub add_fields : ℕ → List String → Parsing → Parsing
unfolding add_row is_header_row
add_fields n fields st =
    if not st.first_data_line_seen && is_header_row fields
    then record (see_line st) { has_header = true }
    else add_row n fields (see_line st)

unfoldable pub add_parsed : ℕ → Result (List String) → Parsing → Parsing
unfolding add_fields
add_parsed n (err message) st = add_error n message st
add_parsed n (ok fields) st = add_fields n (map trim fields) st

-- One round of the loop.
unfoldable pub add_line : ℕ → String → Parsing → Parsing
unfolding add_parsed
add_line n line st = if is_blank line then st else add_parsed n (parse_csv_line line) st

-- The loop, from the line with this number.
unfoldable pub add_lines : ℕ → List String → Parsing → Parsing
unfolding add_line
add_lines n [] st = st
add_lines n (line ∷ lines) st = add_lines (n + 1) lines (add_line n line st)

-- What the cap on rows reports before the loop.
unfoldable pub before_loop : List String → Parsing
before_loop lines = record {
  rows = [];
  errors =
      if ltb max_csv_rows (length lines)
      then record {
        row_number = max_csv_rows + 1;
        message = "CSV has more than 5000 rows; split it into smaller batches";
      }
        ∷ []
      else [];
  has_header = false;
  first_data_line_seen = false;
}

unfoldable pub parse_credential_csv : String → Parsing
unfolding strip_bom split_lines before_loop add_lines
parse_credential_csv text =
    let lines = split_lines (strip_bom text) in
    add_lines 1 (first_lines max_csv_rows lines) (before_loop lines)
