-- ===== src/Csv/Tests.antt =====
-- The CSV parser on small texts.
use certiva.Prelude.{
  ◌+◌, ◌≡◌, refl, String, [], ◌∷◌, ok, err, length, filter_by, All, ltb, if◌then◌else◌,
}
use certiva.Text.{trim, to_lower_case, is_hex64, is_space}
use certiva.Csv.{max_csv_rows, is_blank, strip_bom, split_lines, first_lines, parse_credential_csv}
use certiva.Csv.Line.{parse_csv_line}
use certiva.Csv.Quoting.{print_line, parse-print}
use certiva.Csv.Complete.{counted, parse_counts}
use certiva.Csv.Rows.{IsRow, Increasing, parse_rows-IsRow}

quoted_test : parse_csv_line "Ani,\"1\"\"7, B\",S1" ≡ ok ("Ani" ∷ "1\"7, B" ∷ "S1" ∷ [])
unfolding parse_csv_line
quoted_test = refl

unclosed_test : parse_csv_line "Ani,\"17" ≡ err "Unclosed quote in CSV line."
unfolding parse_csv_line
unclosed_test = refl

abbrev text : String
text = "studentName,student_id,Degree\r\nAni,17,S1\n\nBudi,18\n"

text_test :
    (length (parse_credential_csv text).rows ≡ 1) × (length (parse_credential_csv text).errors ≡ 1)
unfolding parse_credential_csv trim to_lower_case is_space is_hex64 parse_csv_line
text_test = (refl, refl)

parse-print_example :
    parse_csv_line (print_line "Ani \"A\"" ("17" ∷ "S1, S2" ∷ []))
    ≡ ok ("Ani \"A\"" ∷ "17" ∷ "S1, S2" ∷ [])
parse-print_example = parse-print "Ani \"A\"" ("17" ∷ "S1, S2" ∷ [])

parse_counts_example :
    let lines = split_lines (strip_bom text) in
    let taken = first_lines max_csv_rows lines in
    counted (parse_credential_csv text) + length (filter_by is_blank taken)
    ≡ length taken + (if ltb max_csv_rows (length lines) then 1 else 0)
parse_counts_example = parse_counts text

parse_rows-IsRow_example :
    let rs = (parse_credential_csv text).rows in
    All (IsRow (first_lines max_csv_rows (split_lines (strip_bom text)))) rs × Increasing rs
parse_rows-IsRow_example = parse_rows-IsRow text
