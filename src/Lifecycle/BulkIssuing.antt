-- ===== src/Lifecycle/BulkIssuing.antt =====
-- `bulkIssue` of apps/api/src/modules/credential/credential.service.ts: what its counts mean, and that
-- it loses no row.
use certiva.Prelude.{ℕ, Bool, false, String, List, [], ◌∷◌, ◌++◌, length, or_else}
use certiva.Registry.{Credential}
use certiva.Auth.{JwtPayload}
use certiva.Lifecycle.{Attempt, Registrar, ◌>>◌, Tools, rows, check, bad_request}
use certiva.Lifecycle.Rows.{IsSound}
use certiva.Lifecycle.Growth.{Grows, Grows-refl, Grows-trans, either-Grows}
use certiva.Lifecycle.Rules.{check-then, resolve-then}
use certiva.Registry.{IssuanceBatch}
use certiva.Csv.{parse_credential_csv}
use certiva.Lifecycle.Issue.{issue_credential_record}
use certiva.Lifecycle.Issuing.{issue-Grows}
use certiva.Lifecycle.Bulk.{
  BulkIssueRowResult, is_valid, input_of, issued_as, answer_rows, new_batch, issue_row, issue_rows,
  commit_rows, BulkIssueDto, bulk_issue, answer_parsed, has_text, has_lines, with_batches,
}

issued_as-Grows :
    (r : BulkIssueRowResult) (s : Registrar) (a : Attempt Credential × Registrar)
    → Grows s a.1
    → Grows s (issued_as r a).1
unfolding issued_as
issued_as-Grows r s (a, u) h = h

issue_row-Grows :
    (t : Tools) (issuer_id batch_id : String) (r : BulkIssueRowResult) (s : Registrar)
    → IsSound (rows s)
    → Grows s (issue_row t issuer_id batch_id r s).1
unfolding issue_row
issue_row-Grows t issuer_id batch_id r s h =
    either-Grows s (is_valid r) _ (r, s)
      (issued_as-Grows r s (issue_credential_record t issuer_id (input_of batch_id r) s)
        (issue-Grows t issuer_id (input_of batch_id r) s h))
      (Grows-refl s h)

module _ (t : ℕ → Tools) (issuer_id batch_id : String) where
  issue_rows-Grows :
      (rs : List BulkIssueRowResult) (s : Registrar)
      → IsSound (rows s)
      → Grows s (issue_rows t issuer_id batch_id rs s).1
  unfolding issue_rows
  issue_rows-Grows [] s h = Grows-refl s h
  issue_rows-Grows (r ∷ rs) s h =
      let g = issue_row-Grows (t r.row_number) issuer_id batch_id r s h in
      Grows-trans s _ _ g (issue_rows-Grows rs _ g.sound)

-- The batches are no part of what grows.
batches-Grows : (s u : Registrar) (b : List IssuanceBatch) → Grows s u → Grows s (with_batches b u)
batches-Grows s u b g = record {
  sound = g.sound;
  registry = g.registry;
  audited = g.audited;
  logged = g.logged;
}

commit-Grows :
    (t : ℕ → Tools) (admin : JwtPayload) (issuer_id : String) (rs : List BulkIssueRowResult)
    (s : Registrar)
    → IsSound (rows s)
    → Grows s (commit_rows t admin issuer_id rs s).1
unfolding commit_rows
commit-Grows t admin issuer_id rs s h =
    let g =
      issue_rows-Grows t issuer_id (t 0).new_batch_id rs
        (with_batches (s.batches ++ new_batch (t 0).new_batch_id issuer_id admin (length rs) ∷ [])
          s)
        h in
    batches-Grows s
      (issue_rows t issuer_id (t 0).new_batch_id rs (
        with_batches (s.batches ++ new_batch (t 0).new_batch_id issuer_id admin (length rs) ∷ [])
          s)).1
      _ (record { sound = g.sound; registry = g.registry; audited = g.audited; logged = g.logged })

answer-Grows :
    (t : ℕ → Tools) (admin : JwtPayload) (issuer_id : String) (commit : Bool)
    (rs : List BulkIssueRowResult) (s : Registrar)
    → IsSound (rows s)
    → Grows s (answer_rows t admin issuer_id commit rs s).1
unfolding answer_rows
answer-Grows t admin issuer_id commit rs s h =
    either-Grows s commit _ _ (commit-Grows t admin issuer_id rs s h) (Grows-refl s h)

pub bulk_issue-Grows :
    (t : ℕ → Tools) (admin : JwtPayload) (dto : BulkIssueDto) (s : Registrar)
    → IsSound (rows s)
    → Grows s (bulk_issue t admin dto s).1
unfolding bulk_issue answer_parsed
bulk_issue-Grows t admin dto s h = resolve-then s h (t 0).setting admin _ (λ issuer_id u i.
    let parsed = parse_credential_csv dto.csv in
    let rest = answer_parsed t admin issuer_id (or_else dto.commit false) parsed in
    check-then u i (has_text dto.csv) (bad_request "CSV content is required.")
      (check (has_lines parsed) (bad_request "No credential rows found in the CSV file.") >> rest)
      (λ _.
        check-then u i (has_lines parsed) (bad_request "No credential rows found in the CSV file.")
          rest (λ _. answer-Grows t admin issuer_id (or_else dto.commit false) _ u i)))
