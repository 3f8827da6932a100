-- ===== src/Csv/Complete.antt =====
-- `parseCredentialCsv` of apps/api/src/modules/credential/credential.bulk.utils.ts accounts for
-- every line.
use certiva.Prelude.{
  ℕ, ◌+◌, Bool, true, false, not, ◌&&◌, ◌≡◌, refl, ◌∙◌, inl, inr, String, List, [], ◌∷◌, ◌++◌, map,
  Result, ok, err, ◌==◌, ltb, if◌then◌else◌, Bool-cases, length, length-append, filter_by, head_of,
  arith,
}
use certiva.Text.{trim}
use certiva.Csv.Line.{parse_csv_line}
use certiva.Csv.{
  max_csv_rows, ParsedCredentialRow, Parsing, strip_bom, split_lines, first_lines, is_header_row,
  add_error, is_blank, extras_of, normalized_hash, valid_hash, add_row, see_line, add_fields,
  add_parsed, add_line, add_lines, before_loop, parse_credential_csv,
}

abbrev count_header : Bool → ℕ
count_header true = 1
count_header false = 0

-- The lines that were taken as a row, as an error or as the header.
abbrev pub counted : Parsing → ℕ
counted st = length st.rows + length st.errors + count_header st.has_header

-- There is no header before the first line that is not blank.
abbrev HeaderSeen : Parsing → Type 0
HeaderSeen st = st.first_data_line_seen ≡ false → st.has_header ≡ false

-- One more line is accounted for.
abbrev OneMore : Parsing → Parsing → Type 0
OneMore st st' = (counted st' ≡ counted st + 1) × HeaderSeen st'

add_error-OneMore :
    (n : ℕ) (message : String) (st : Parsing) → HeaderSeen st → OneMore st (add_error n message st)
add_error-OneMore n message st h = (
  ground (arith, length-append {0} st.errors (record { row_number = n; message = message } ∷ [])),
  h,
)

push-OneMore :
    (row : ParsedCredentialRow) (st : Parsing)
    → HeaderSeen st
    → OneMore st (record st { rows = st.rows ++ row ∷ [] })
push-OneMore row st h = (ground (arith, length-append {0} st.rows (row ∷ [])), h)

header-OneMore :
    (b : Bool) (st : Parsing)
    → HeaderSeen st
    → (not st.first_data_line_seen && b) ≡ true
    → OneMore st (record (see_line st) { has_header = true })
header-OneMore b st h t =
    let none_before = h (unseen st.first_data_line_seen b t) in
    (rw none_before (omega arith), λ e. cc)
  where
    unseen : (x b : Bool) → (not x && b) ≡ true → x ≡ false
    unseen true b t = cc
    unseen false b t = refl

add_row-OneMore :
    (n : ℕ) (fields : List String) (st : Parsing) → HeaderSeen st → OneMore st (add_row n fields st)
unfolding add_row
add_row-OneMore n [] st h = add_error-OneMore n _ st h
add_row-OneMore n (a ∷ []) st h = add_error-OneMore n _ st h
add_row-OneMore n (a ∷ b ∷ []) st h = add_error-OneMore n _ st h
add_row-OneMore n (a ∷ b ∷ c ∷ rest) st h = elim (Bool-cases (length (extras_of rest) == 0)) [
  | inr m ↦ simp m (add_error-OneMore n _ st h)
  | inl t ↦ elim (Bool-cases (valid_hash (normalized_hash (head_of rest)))) [
    | inr m ↦ simp (t, m) (add_error-OneMore n _ st h)
    | inl u ↦ simp (t, u) (push-OneMore _ st h)
  ]
]

add_fields-OneMore :
    (n : ℕ) (fields : List String) (st : Parsing)
    → HeaderSeen st
    → OneMore st (add_fields n fields st)
unfolding add_fields
add_fields-OneMore n fields st h =
    elim (Bool-cases (not st.first_data_line_seen && is_header_row fields)) [
      | inl t ↦ simp t (header-OneMore (is_header_row fields) st h t)
      | inr m ↦ simp m (add_row-OneMore n fields (see_line st) (λ e. cc))
    ]

add_parsed-OneMore :
    (n : ℕ) (r : Result (List String)) (st : Parsing)
    → HeaderSeen st
    → OneMore st (add_parsed n r st)
unfolding add_parsed
add_parsed-OneMore n (err message) st h = add_error-OneMore n message st h
add_parsed-OneMore n (ok fields) st h = add_fields-OneMore n (map trim fields) st h

add_line-counted :
    (n : ℕ) (line : String) (st : Parsing)
    → HeaderSeen st
    → (counted (add_line n line st) + (if is_blank line then 1 else 0) ≡ counted st + 1)
      × HeaderSeen (add_line n line st)
unfolding add_line
add_line-counted n line st h =
    let one = add_parsed-OneMore n (parse_csv_line line) st h in
    elim (Bool-cases (is_blank line)) [
      | inl t ↦ simp t (refl, h)
      | inr m ↦ simp m (omega (arith, one.0), one.1)
    ]

length-blank :
    (line : String) (lines : List String)
    → length (filter_by is_blank (line ∷ lines))
      ≡ length (filter_by is_blank lines) + (if is_blank line then 1 else 0)
length-blank line lines = elim (Bool-cases (is_blank line)) [
  | inl t ↦ simp t (omega arith)
  | inr m ↦ simp m (omega arith)
]

add_lines-counted :
    (n : ℕ) (lines : List String) (st : Parsing)
    → HeaderSeen st
    → counted (add_lines n lines st) + length (filter_by is_blank lines) ≡ counted st + length lines
unfolding add_lines
add_lines-counted n [] st h = omega arith
add_lines-counted n (line ∷ lines) st h =
    let one = add_line-counted n line st h in
    omega (
      arith,
      one.0,
      length-blank line lines,
      add_lines-counted (n + 1) lines (add_line n line st) one.1,
    )

counted-before :
    (lines : List String)
    → counted (before_loop lines) ≡ (if ltb max_csv_rows (length lines) then 1 else 0)
unfolding before_loop
counted-before lines = elim (Bool-cases (ltb max_csv_rows (length lines))) [
  | inl t ↦ simp t refl
  | inr m ↦ simp m refl
]

-- Every line within the cap is accounted for: as many rows, errors and headers come out as there are
-- lines that are not blank among the first 5000, and one error more if the text has more lines.
pub parse_counts :
    (text : String)
    → let lines = split_lines (strip_bom text) in
      let taken = first_lines max_csv_rows lines in
      counted (parse_credential_csv text) + length (filter_by is_blank taken)
      ≡ length taken + (if ltb max_csv_rows (length lines) then 1 else 0)
unfolding parse_credential_csv before_loop
parse_counts text =
    let lines = split_lines (strip_bom text) in
    add_lines-counted 1 (first_lines max_csv_rows lines) (before_loop lines) (λ e. refl)
    ∙ omega (arith, counted-before lines)
