-- ===== src/Csv/Rows.antt =====
-- What the rows of `parseCredentialCsv` in apps/api/src/modules/credential/credential.bulk.utils.ts are:
-- each is read from its own line of the text.
use mathlib.Core.Option.{some-injective}
use certiva.Prelude.{
  ℕ, zero, suc, ◌+◌, ◌≤◌, ◌<◌, true, not, ◌&&◌, ◌≡◌, refl, sym, ap, subst, ◌∙◌, inl, inr, String,
  Option, none, some, List, [], ◌∷◌, ◌++◌, map, Result, ok, err, ◌==◌, if◌then◌else◌, Bool-cases,
  length, All, All-append, All-imp, head_of, truthy, arith,
}
use certiva.Text.{trim, to_lower_case, is_hex64}
use certiva.Csv.Line.{parse_csv_line}
use certiva.Csv.{
  max_csv_rows, ParsedCredentialRow, Parsing, strip_bom, split_lines, first_lines, is_header_row,
  is_blank, extras_of, normalized_hash, valid_hash, add_row, see_line, add_fields, add_parsed,
  add_line, add_lines, before_loop, parse_credential_csv,
}

-- The line at an index, from 0.
abbrev pub nth : List String → ℕ → Option String
nth [] k = none
nth (line ∷ lines) zero = some line
nth (line ∷ lines) (suc k) = nth lines k

-- A row and the line it was read from, which has the row's number, counted from 1: the fields of the
-- line, trimmed, begin with the name, the id and the degree of the row, and a document hash is the
-- fourth of them in lower case, and 64 hexadecimal digits.
pub record IsRow (lines : List String) (r : ParsedCredentialRow) : Type 0 where
  pub index : ℕ
  pub numbered : r.row_number ≡ index + 1
  pub line : String
  pub at : nth lines index ≡ some line
  pub fields : List String
  pub parsed : parse_csv_line line ≡ ok fields
  pub rest : List String
  pub columns : map trim fields ≡ r.student_name ∷ r.student_id ∷ r.degree ∷ rest
  pub hashed :
      (h : String)
      → r.document_hash ≡ some h
      → (is_hex64 h ≡ true)
        × ((field : String) × (head_of rest ≡ some field) × (h ≡ to_lower_case (trim field)))

-- The numbers of the rows increase.
abbrev pub Increasing : List ParsedCredentialRow → Type 0
Increasing [] = Unit
Increasing (r ∷ rs) = All (λ x. r.row_number < x.row_number) rs × Increasing rs

Increasing-append :
    (rs : List ParsedCredentialRow) (r : ParsedCredentialRow)
    → Increasing rs
    → All (λ x. x.row_number < r.row_number) rs
    → Increasing (rs ++ r ∷ [])
Increasing-append [] r h k = (tt, tt)
Increasing-append (x ∷ rs) r (p, h) (q, k) = (
  All-append (λ y. x.row_number < y.row_number) rs (r ∷ []) p (q, tt),
  Increasing-append rs r h k,
)

-- What the loop has read before the line at this index.
record IsRead (lines : List String) (k : ℕ) (rs : List ParsedCredentialRow) : Type 0 where
  rows : All (IsRow lines) rs
  before : All (λ x. x.row_number ≤ k) rs
  increasing : Increasing rs

IsRead-later :
    (lines : List String) (k : ℕ) (rs : List ParsedCredentialRow)
    → IsRead lines k rs
    → IsRead lines (k + 1) rs
IsRead-later lines k rs h = record {
  rows = h.rows;
  before =
      All-imp (λ x. x.row_number ≤ k) (λ x. x.row_number ≤ k + 1) rs (λ x p. omega arith) h.before;
  increasing = h.increasing;
}

IsRead-append :
    (lines : List String) (k : ℕ) (rs : List ParsedCredentialRow) (r : ParsedCredentialRow)
    → IsRead lines k rs
    → r.row_number ≡ k + 1
    → IsRow lines r
    → IsRead lines (k + 1) (rs ++ r ∷ [])
IsRead-append lines k rs r h e row = record {
  rows = All-append (IsRow lines) rs (r ∷ []) h.rows (row, tt);
  before =
      All-append (λ x. x.row_number ≤ k + 1) rs (r ∷ []) (IsRead-later lines k rs h).before
        (omega (arith, e), tt);
  increasing = Increasing-append rs r h.increasing (
      All-imp (λ x. x.row_number ≤ k) (λ x. x.row_number < r.row_number) rs
        (λ x p. omega (arith, e)) h.before);
}

normalized_field :
    (o : Option String) (h : String)
    → normalized_hash o ≡ some h
    → (field : String) × (o ≡ some field) × (h ≡ to_lower_case (trim field))
unfolding normalized_hash
normalized_field none h e = cc
normalized_field (some f) h e = (f, refl, some-injective h (to_lower_case (trim f)) (sym e))

kept_hash :
    (o : Option String) (h : String)
    → valid_hash o ≡ true
    → (if truthy o then o else none) ≡ some h
    → (o ≡ some h) × (is_hex64 h ≡ true)
unfolding valid_hash
kept_hash none h v e = cc
kept_hash (some x) h v e = elim (Bool-cases (truthy (some x))) [
  | inl t ↦
      let same : x ≡ h = some-injective x h (rw t at e) in
      (ap some same, subst (λ y. is_hex64 y ≡ true) same (rw t at v))
  | inr m ↦ cc (rw m at e)
]

-- The line at this index, its fields, and the rest of the loop's body on them.
module _ (lines : List String) (k : ℕ) (line : String) (at : nth lines k ≡ some line)
    (raw : List String) (parsed : parse_csv_line line ≡ ok raw) where
  add_row-IsRead :
      (fields : List String) (st : Parsing)
      → map trim raw ≡ fields
      → IsRead lines k st.rows
      → IsRead lines (k + 1) (add_row (k + 1) fields st).rows
  unfolding add_row
  add_row-IsRead [] st e h = IsRead-later lines k st.rows h
  add_row-IsRead (a ∷ []) st e h = IsRead-later lines k st.rows h
  add_row-IsRead (a ∷ b ∷ []) st e h = IsRead-later lines k st.rows h
  add_row-IsRead (a ∷ b ∷ c ∷ rest) st e h = elim (Bool-cases (length (extras_of rest) == 0)) [
    | inr m ↦ simp m (IsRead-later lines k st.rows h)
    | inl t ↦ elim (Bool-cases (valid_hash (normalized_hash (head_of rest)))) [
      | inr m ↦ simp (t, m) (IsRead-later lines k st.rows h)
      | inl u ↦
          simp (t, u)
            (IsRead-append lines k st.rows _ h refl (record {
              index = k;
              numbered = refl;
              line = line;
              at = at;
              fields = raw;
              parsed = parsed;
              rest = rest;
              columns = e;
              hashed = λ x f.
                  let (o, hex) = kept_hash (normalized_hash (head_of rest)) x u f in
                  (hex, normalized_field (head_of rest) x o);
            }))
    ]
  ]

  add_fields-IsRead :
      (st : Parsing)
      → IsRead lines k st.rows
      → IsRead lines (k + 1) (add_fields (k + 1) (map trim raw) st).rows
  unfolding add_fields
  add_fields-IsRead st h =
      elim (Bool-cases (not st.first_data_line_seen && is_header_row (map trim raw))) [
        | inl t ↦ simp t (IsRead-later lines k st.rows h)
        | inr m ↦ simp m (add_row-IsRead (map trim raw) (see_line st) refl h)
      ]

module _ (lines : List String) (k : ℕ) (line : String) (at : nth lines k ≡ some line) where
  add_parsed-IsRead :
      (r : Result (List String)) (st : Parsing)
      → parse_csv_line line ≡ r
      → IsRead lines k st.rows
      → IsRead lines (k + 1) (add_parsed (k + 1) r st).rows
  unfolding add_parsed
  add_parsed-IsRead (err message) st e h = IsRead-later lines k st.rows h
  add_parsed-IsRead (ok raw) st e h = add_fields-IsRead lines k line at raw e st h

  add_line-IsRead :
      (st : Parsing) → IsRead lines k st.rows → IsRead lines (k + 1) (add_line (k + 1) line st).rows
  unfolding add_line
  add_line-IsRead st h = elim (Bool-cases (is_blank line)) [
    | inl t ↦ simp t (IsRead-later lines k st.rows h)
    | inr m ↦ simp m (add_parsed-IsRead (parse_csv_line line) st refl h)
  ]

add_lines-IsRead :
    (lines todo : List String) (k : ℕ) (st : Parsing)
    → ((j : ℕ) → nth lines (j + k) ≡ nth todo j)
    → IsRead lines k st.rows
    → (last : ℕ) × IsRead lines last (add_lines (k + 1) todo st).rows
unfolding add_lines
add_lines-IsRead lines [] k st at h = (k, h)
add_lines-IsRead lines (line ∷ todo) k st at h =
    add_lines-IsRead lines todo (k + 1) (add_line (k + 1) line st)
      (λ j. ap (nth lines) (omega arith) ∙ at (suc j))
      (add_line-IsRead lines k line (ap (nth lines) (omega arith) ∙ at 0) st h)

-- Every row that is read from a CSV is read from its own line among the first 5000: its number is that
-- of a line there whose fields, trimmed, begin with the row's name, id and degree; it has a document
-- hash only if the fourth field, trimmed and in lower case, is that hash and 64 hexadecimal digits;
-- and the rows stand in the order of their lines, one for a line at most.
pub parse_rows-IsRow :
    (text : String)
    → let rs = (parse_credential_csv text).rows in
      All (IsRow (first_lines max_csv_rows (split_lines (strip_bom text)))) rs × Increasing rs
unfolding parse_credential_csv before_loop
parse_rows-IsRow text =
    let lines = split_lines (strip_bom text) in
    let taken = first_lines max_csv_rows lines in
    let (last, h) =
      add_lines-IsRead taken taken 0 (before_loop lines) (λ j. ap (nth taken) (omega arith))
        (record { rows = tt; before = tt; increasing = tt }) in
    (h.rows, h.increasing)
