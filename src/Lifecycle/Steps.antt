-- ===== src/Lifecycle/Steps.antt =====
-- What happens to the credentials: the modelled calls of credential.service.ts (its upkeep of assets and
-- of missing document hashes is not among them) and institution.service.ts, the verifications that
-- are recorded, and the runs of the worker.
use certiva.Prelude.{ℕ, ◌≡◌, String, Option, List, ok}
use certiva.Registry.{Credential, VerificationLog}
use certiva.Auth.{JwtPayload}
use certiva.Anchoring.{Store}
use certiva.Anchoring.Worker.{World, AnchorJob, process_credential_anchor}
use certiva.Institution.{Setting, UpdateInstitutionDto}
use certiva.Verification.{Db, record_verification}
use certiva.Lifecycle.{Registrar, Tools, UploadedFile, rows, with_rows, update_institution}
use certiva.Lifecycle.Issue.{IssueInput, create}
use certiva.Lifecycle.Revoke.{RevokeCredentialDto, revoke, bulk_revoke}
use certiva.Lifecycle.Delete.{remove, bulk_delete}
use certiva.Lifecycle.SecurePdf.{register_secure_pdf, register_batch_secure_pdf}
use certiva.Lifecycle.Bulk.{BulkIssueDto, bulk_issue}

abbrev pub with_store : Store → Registrar → Registrar
with_store store s = record s { producer = record s.producer { store = store } }

-- One call, whatever it returns or throws; `worked` is a run of a job by the worker.
pub data Step (s : Registrar) : Registrar → Type 0 where
  created :
      (t : Tools) (admin : JwtPayload) (input : IssueInput) → Step s (create t admin input s).1
  bulk_issued :
      (t : ℕ → Tools) (admin : JwtPayload) (dto : BulkIssueDto)
      → Step s (bulk_issue t admin dto s).1
  revoked :
      (t : Tools) (admin : JwtPayload) (id : String) (dto : RevokeCredentialDto)
      → Step s (revoke t admin id dto s).1
  bulk_revoked :
      (t : ℕ → Tools) (admin : JwtPayload) (ids : List String) (dto : RevokeCredentialDto)
      → Step s (bulk_revoke t admin ids dto s).1
  removed : (t : Tools) (admin : JwtPayload) (id : String) → Step s (remove t admin id s).1
  bulk_deleted :
      (t : ℕ → Tools) (admin : JwtPayload) (ids : List String)
      → Step s (bulk_delete t admin ids s).1
  secured :
      (t : Tools) (admin : JwtPayload) (id : String) (file : UploadedFile)
      → Step s (register_secure_pdf t admin id file s).1
  batch_secured :
      (t : Tools) (admin : JwtPayload) (batch_id : String)
      → Step s (register_batch_secure_pdf t admin batch_id s).1
  edited :
      (v : Setting) (dto : UpdateInstitutionDto) (admin_id : Option String)
      → Step s (update_institution v dto admin_id s).1
  verified :
      (logs : List VerificationLog) (row : VerificationLog) (o : Option Credential) (db : Db)
      → record_verification (record { credentials = rows s; verification_logs = logs }) row
        ≡ ok (o, db)
      → Step s (with_rows db.credentials s)
  worked :
      (w : World) (job : AnchorJob)
      → Step s (with_store (process_credential_anchor w job s.producer.store).1 s)

-- Any number of calls.
pub data Steps (s : Registrar) : Registrar → Type 0 where
  start : Steps s s
  step : {u v : Registrar} → Steps s u → Step u v → Steps s v
