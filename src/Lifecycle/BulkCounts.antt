-- ===== src/Lifecycle/BulkCounts.antt =====
-- The counts in the answer of `bulkIssue` of apps/api/src/modules/credential/credential.service.ts.
use certiva.Prelude.{
  ℕ, ◌+◌, Bool, true, false, ◌≡◌, refl, ap, ◌∙◌, inl, inr, String, List, [], ◌∷◌, Bool-cases,
  if◌then◌else◌, All, arith, All-append, length, filter_by, map, or_else, leb,
}
use certiva.Registry.{Credential}
use certiva.Auth.{JwtPayload}
use certiva.Lifecycle.{
  Exception, Attempt, returns, throws, Registrar, M, run_on, ◌>>◌, Tools, rows, resolve_id, check,
  bad_request,
}
use certiva.Anchoring.Queue.{Producer}
use certiva.Csv.{Parsing, ParsedCredentialRow, CsvParseError, parse_credential_csv}
use certiva.Lifecycle.Growth.{resolve_id-Passes}
use certiva.Lifecycle.Issue.{issue_credential_record}
use certiva.Lifecycle.Counting.{Adds, issue-Adds}
use certiva.Lifecycle.Bulk.{
  BulkIssueRowStatus, BulkIssueRowResult, valid, issued, failed, settle_row, is_valid, is_issued,
  is_failed, input_of, issued_as, answer_rows, issue_row, issue_rows, BulkResponse, counts_invalid,
  counts_valid, is_valid_row_status, is_invalid_row_status, build_bulk_response, commit_rows,
  BulkIssueDto, bulk_issue, answer_parsed, has_text, has_lines, preview_rows, with_batches,
  row_result, row_status, error_result, sort_rows, insert_row,
}

-- What a preview leaves of a row: neither issued nor failed.
abbrev IsPreviewed : BulkIssueRowResult → Type 0
IsPreviewed r = (is_issued r ≡ false) × (is_failed r ≡ false)

abbrev one_if : Bool → ℕ
one_if true = 1
one_if false = 0

-- A row whose issuing has been tried, or was not due, in a state with as many credentials more.
abbrev Settles : Registrar → BulkIssueRowResult × Registrar → Type 0
Settles s (r, u) = (is_valid r ≡ false) × (length (rows u) ≡ length (rows s) + one_if (is_issued r))

issued_as-Settles :
    (r : BulkIssueRowResult) (s : Registrar) (a : Attempt Credential × Registrar)
    → Adds s a
    → Settles s (issued_as r a)
unfolding issued_as settle_row
issued_as-Settles r s (returns c, u) h = (refl, h)
issued_as-Settles r s (throws (Exception.conflict m), u) h = (refl, omega (arith, h))
issued_as-Settles r s (throws (Exception.bad_request m), u) h = (refl, omega (arith, h))
issued_as-Settles r s (throws (Exception.forbidden m), u) h = (refl, omega (arith, h))
issued_as-Settles r s (throws (Exception.not_found m), u) h = (refl, omega (arith, h))
issued_as-Settles r s (throws (Exception.internal m), u) h = (refl, omega (arith, h))
issued_as-Settles r s (throws (Exception.other m), u) h = (refl, omega (arith, h))
issued_as-Settles r s (throws (Exception.unique_violation columns), u) h = (refl, omega (arith, h))

either-Settles :
    (b : Bool) (r : BulkIssueRowResult) (s : Registrar) (x : BulkIssueRowResult × Registrar)
    → is_valid r ≡ b
    → is_issued r ≡ false
    → Settles s x
    → Settles s (if b then x else (r, s))
either-Settles true r s x e i h = h
either-Settles false r s x e i h = (e, rw i (omega arith))

issue_row-Settles :
    (t : Tools) (issuer_id batch_id : String) (r : BulkIssueRowResult) (s : Registrar)
    → IsPreviewed r
    → Settles s (issue_row t issuer_id batch_id r s)
unfolding issue_row
issue_row-Settles t issuer_id batch_id r s p =
    let a = issue_credential_record t issuer_id (input_of batch_id r) s in
    either-Settles (is_valid r) r s (issued_as r a) refl p.0
      (issued_as-Settles r s a (issue-Adds t issuer_id (input_of batch_id r) s))

abbrev IsSettled : List BulkIssueRowResult → Type 0
IsSettled rs = All (λ r. is_valid r ≡ false) rs

length-if :
    (p : BulkIssueRowResult → Bool) (r : BulkIssueRowResult) (rs : List BulkIssueRowResult)
    → length (filter_by p (r ∷ rs)) ≡ one_if (p r) + length (filter_by p rs)
length-if p r rs = elim (Bool-cases (p r)) [
  | inl t ↦ simp t (omega arith)
  | inr n ↦ simp n (omega arith)
]

issue_rows-counts :
    (t : ℕ → Tools) (issuer_id batch_id : String) (rs : List BulkIssueRowResult) (s : Registrar)
    → All IsPreviewed rs
    → let (rs', u) = issue_rows t issuer_id batch_id rs s in
      (length (rows u) ≡ length (rows s) + length (filter_by is_issued rs')) × IsSettled rs'
unfolding issue_rows
issue_rows-counts t issuer_id batch_id [] s p = (omega arith, tt)
issue_rows-counts t issuer_id batch_id (r ∷ rs) s (p, ps) =
    let one = issue_row-Settles (t r.row_number) issuer_id batch_id r s p in
    let rest =
      issue_rows-counts t issuer_id batch_id rs
        (issue_row (t r.row_number) issuer_id batch_id r s).1 ps in
    (
      omega (
        arith,
        one.1,
        rest.0,
        length-if is_issued (issue_row (t r.row_number) issuer_id batch_id r s).0 _,
      ),
      (one.0, rest.1),
    )

-- Every row counts once: as valid or as invalid, and a settled valid one as issued or as failed.
split-counts :
    (rs : List BulkIssueRowResult)
    → length rs ≡ length (filter_by counts_valid rs) + length (filter_by counts_invalid rs)
split-counts [] = omega arith
split-counts (r ∷ rs) = omega (
  arith,
  once r.status,
  split-counts rs,
  length-if counts_valid r rs,
  length-if counts_invalid r rs,
)
  where
    once :
        (s : BulkIssueRowStatus)
        → one_if (is_valid_row_status s) + one_if (is_invalid_row_status s) ≡ 1
    once s = ground arith

once_settled :
    (s : BulkIssueRowStatus)
    → (elim s [ valid ↦ true | _ ↦ false ]) ≡ false
    → one_if (is_valid_row_status s)
      ≡ one_if (elim s [ issued ↦ true | _ ↦ false ])
        + one_if (elim s [ failed ↦ true | _ ↦ false ])
once_settled s h = ground arith

settled-counts :
    (rs : List BulkIssueRowResult)
    → IsSettled rs
    → length (filter_by counts_valid rs)
      ≡ length (filter_by is_issued rs) + length (filter_by is_failed rs)
settled-counts [] h = omega arith
settled-counts (r ∷ rs) (e, h) = omega (
  arith,
  once_settled r.status e,
  settled-counts rs h,
  length-if counts_valid r rs,
  length-if is_issued r rs,
  length-if is_failed r rs,
)

insert-IsPreviewed :
    (r : BulkIssueRowResult) (rs : List BulkIssueRowResult)
    → IsPreviewed r
    → All IsPreviewed rs
    → All IsPreviewed (insert_row r rs)
unfolding insert_row
insert-IsPreviewed r [] p h = (p, tt)
insert-IsPreviewed r (x ∷ xs) p (q, h) = elim (Bool-cases (leb r.row_number x.row_number)) [
  | inl t ↦ simp t (p, (q, h))
  | inr n ↦ simp n (q, insert-IsPreviewed r xs p h)
]

sort-IsPreviewed :
    (rs : List BulkIssueRowResult) → All IsPreviewed rs → All IsPreviewed (sort_rows rs)
unfolding sort_rows
sort-IsPreviewed [] h = tt
sort-IsPreviewed (r ∷ rs) (p, h) = insert-IsPreviewed r (sort_rows rs) p (sort-IsPreviewed rs h)

errors-IsPreviewed : (es : List CsvParseError) → All IsPreviewed (map error_result es)
errors-IsPreviewed [] = tt
errors-IsPreviewed (e ∷ es) = ((refl, refl), errors-IsPreviewed es)

results-IsPreviewed :
    (lower : String → String) (duplicates : List ℕ) (existing : List String)
    (parsed : List ParsedCredentialRow)
    → All IsPreviewed (map (row_result lower duplicates existing) parsed)
unfolding row_result row_status
results-IsPreviewed lower duplicates existing [] = tt
results-IsPreviewed lower duplicates existing (r ∷ rs) =
    (ground arith, results-IsPreviewed lower duplicates existing rs)

preview-IsPreviewed :
    (lower : String → String) (issuer_id : String) (parsed : Parsing) (cs : List Credential)
    → All IsPreviewed (preview_rows lower issuer_id parsed cs)
unfolding preview_rows
preview-IsPreviewed lower issuer_id parsed cs = sort-IsPreviewed _ (
    All-append IsPreviewed (map error_result parsed.errors) _ (errors-IsPreviewed parsed.errors)
      (results-IsPreviewed lower _ _ parsed.rows))

-- What the answer of a bulk issue says of the state that it leaves.
abbrev pub Tallied : Registrar → Attempt BulkResponse × Registrar → Type 0
Tallied s (throws e, u) = u.producer ≡ s.producer
Tallied s (returns r, u) =
    (r.total_rows ≡ r.valid_rows + r.invalid_rows)
    × (length (rows u) ≡ length (rows s) + r.issued_rows)
    × (r.preview ≡ true → u.producer ≡ s.producer)
    × (r.preview ≡ false → r.valid_rows ≡ r.issued_rows + r.failed_rows)

commit-Tallied :
    (t : ℕ → Tools) (admin : JwtPayload) (issuer_id : String) (rs : List BulkIssueRowResult)
    (s : Registrar)
    → All IsPreviewed rs
    → Tallied s (commit_rows t admin issuer_id rs s)
unfolding commit_rows build_bulk_response
commit-Tallied t admin issuer_id rs s p =
    let counts = issue_rows-counts t issuer_id (t 0).new_batch_id rs (with_batches _ s) p in
    (split-counts _, counts.0, λ e. cc, λ e. settled-counts _ counts.1)

none-issued :
    (rs : List BulkIssueRowResult) → All IsPreviewed rs → length (filter_by is_issued rs) ≡ 0
none-issued [] h = refl
none-issued (r ∷ rs) (p, h) = simp (p.0) (none-issued rs h)

answer-Tallied :
    (t : ℕ → Tools) (admin : JwtPayload) (issuer_id : String) (commit : Bool)
    (rs : List BulkIssueRowResult) (s : Registrar)
    → All IsPreviewed rs
    → Tallied s (answer_rows t admin issuer_id commit rs s)
unfolding answer_rows build_bulk_response
answer-Tallied t admin issuer_id true rs s p = commit-Tallied t admin issuer_id rs s p
answer-Tallied t admin issuer_id false rs s p =
    (split-counts rs, omega (arith, none-issued rs p), λ e. refl, λ e. cc)

parsed-Tallied :
    (t : ℕ → Tools) (admin : JwtPayload) (issuer_id : String) (commit : Bool) (parsed : Parsing)
    (s : Registrar)
    → Tallied s (answer_parsed t admin issuer_id commit parsed s)
unfolding answer_parsed
parsed-Tallied t admin issuer_id commit parsed s =
    answer-Tallied t admin issuer_id commit _ s
      (preview-IsPreviewed (t 0).to_lower_case issuer_id parsed (rows s))

check-Tallied :
    (s u : Registrar) (b : Bool) (e : Exception) (k : M BulkResponse)
    → u.producer ≡ s.producer
    → Tallied s (k u)
    → Tallied s ((check b e >> k) u)
check-Tallied s u true e k h next = next
check-Tallied s u false e k h next = h

-- Counting from a state with the same tables.
moved-Tallied :
    (s u : Registrar) (r : Attempt BulkResponse × Registrar)
    → u.producer ≡ s.producer
    → Tallied u r
    → Tallied s r
moved-Tallied s u (throws e, v) h k = k ∙ h
moved-Tallied s u (returns r, v) h (a, b, c, d) =
    (a, b ∙ ap (λ (p : Producer). length p.store.credentials + r.issued_rows) h, λ e. c e ∙ h, d)

resolved-Tallied :
    (s : Registrar) (r : Attempt String × Registrar) (k : String → M BulkResponse)
    → r.1.producer ≡ s.producer
    → ((id : String) (u : Registrar) → u.producer ≡ s.producer → Tallied s (k id u))
    → Tallied s (run_on r k)
resolved-Tallied s (returns id, u) k h next = next id u h
resolved-Tallied s (throws e, u) k h next = h

-- The counts in the answer of a bulk issue are what it did. Every row counts once, as valid or as
-- invalid; there are `issuedRows` credentials more than before; a preview leaves the credentials, the
-- queue and the lifecycle log as they were, and so does a call that throws; and after a commit every
-- valid row was issued or failed.
pub bulk_issue-Tallied :
    (t : ℕ → Tools) (admin : JwtPayload) (dto : BulkIssueDto) (s : Registrar)
    → Tallied s (bulk_issue t admin dto s)
unfolding bulk_issue
bulk_issue-Tallied t admin dto s =
    resolved-Tallied s (resolve_id (t 0).setting admin s) _
      (resolve_id-Passes (t 0).setting admin s).same_producer
      (λ issuer_id u h.
        let parsed = parse_credential_csv dto.csv in
        let rest = answer_parsed t admin issuer_id (or_else dto.commit false) parsed in
        check-Tallied s u (has_text dto.csv) (bad_request "CSV content is required.")
          (check (has_lines parsed) (bad_request "No credential rows found in the CSV file.")
            >> rest)
          h
          (check-Tallied s u (has_lines parsed)
            (bad_request "No credential rows found in the CSV file.") rest h
            (moved-Tallied s u (rest u) h
              (parsed-Tallied t admin issuer_id (or_else dto.commit false) parsed u))))
