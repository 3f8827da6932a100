-- ===== src/Lifecycle/Life.antt =====
-- What becomes of the registry over any number of calls, verifications and runs of the worker.
use certiva.Prelude.{
  ℕ, Bool, true, ◌≡◌, refl, sym, ap, subst, ◌⊎◌, inl, inr, String, Option, none, some, List, [],
  ◌∷◌, map, Result, ok, eq_iff, find_first, find_first-holds, or_else, update_where, arith,
  Continues, Continues-refl, Option-cases,
}
use certiva.Registry.{Credential, Issuer, VerificationLog}
use certiva.Auth.{Accounts}
use certiva.Anchoring.{Store, has_id}
use certiva.Anchoring.Worker.{World, AnchorJob, process_credential_anchor}
use certiva.Anchoring.Frame.{process-Advances, Advances}
use certiva.Institution
use certiva.Institution.{Setting, UpdateInstitutionDto, has_issuer_id, active_institution}
use certiva.Verification.{Db, count_verification, commit_verification, record_verification}
use certiva.Verification
use certiva.Lifecycle.{Registrar, rows, with_rows, with_issuer, after_update, update_institution}
use certiva.Lifecycle.Rows.{fixed, Kept, Extends, IsSound}
use certiva.Lifecycle.Rows.Update.{Extends-update_where, update_where-IsSound, All-IsOrderly}
use certiva.Lifecycle.Growth.{Grows, Grows-refl, Grows-trans}
use certiva.Lifecycle.Issuing.{create-Grows}
use certiva.Lifecycle.Revoking.{revoke-Grows, bulk_revoke-Grows}
use certiva.Lifecycle.Deleting.{remove-Grows, bulk_delete-Grows}
use certiva.Lifecycle.Securing.{register_secure_pdf-Grows, register_batch-Grows}
use certiva.Lifecycle.BulkIssuing.{bulk_issue-Grows}
use certiva.Lifecycle.Rows.Registered.{
  registered-Extends, registered-Pairwise, registered-IsOrderly,
}
use certiva.Lifecycle.Steps.{
  with_store, Step, created, bulk_issued, revoked, bulk_revoked, removed, bulk_deleted, secured,
  batch_secured, edited, verified, worked, Steps, start, step,
}

worked-Advances :
    (s : Registrar) (id : String) (attempt : ℕ) (store : Store)
    → IsSound (rows s)
    → Advances id attempt s.producer.store store
    → Grows s (with_store store s)
worked-Advances s id attempt store h a = record {
  sound = record {
    orderly = registered-IsOrderly (rows s) store.credentials a.registry h.orderly;
    pairwise = registered-Pairwise (rows s) store.credentials a.registry h.pairwise;
  };
  registry = registered-Extends (rows s) store.credentials a.registry;
  audited = Continues-refl s.accounts.audit_log;
  logged = record { more = a.row ∷ []; is_more = a.appended };
}

worked-none :
    (w : World) (job : AnchorJob) (s : Registrar)
    → IsSound (rows s)
    → find_first (has_id job.credential_id) (rows s) ≡ none
    → Grows s (with_store (process_credential_anchor w job s.producer.store).1 s)
unfolding process_credential_anchor
worked-none w job s h e = rw e (Grows-refl s h)

worked-Grows :
    (w : World) (job : AnchorJob) (s : Registrar)
    → IsSound (rows s)
    → Grows s (with_store (process_credential_anchor w job s.producer.store).1 s)
worked-Grows w job s h = elim (Option-cases (find_first (has_id job.credential_id) (rows s))) [
  | inl e ↦ worked-none w job s h e
  | inr (c, e) ↦ worked-Advances s c.id _ _ h (process-Advances w job s.producer.store c e)
]

-- Counting a verification is an update by id.
counted-Grows :
    (s : Registrar) (p : Credential → Bool) (now : ℕ)
    → IsSound (rows s)
    → Grows s (with_rows (update_where p (count_verification now) (rows s)) s)
counted-Grows s p now h = record {
  sound =
      update_where-IsSound p (count_verification now) (λ c _. count-Kept c) (rows s) h
        (All-IsOrderly p (count_verification now) (rows s) (λ c o. o) h.orderly);
  registry = Extends-update_where p (count_verification now) (λ c _. count-Kept c) (rows s);
  audited = Continues-refl s.accounts.audit_log;
  logged = Continues-refl s.producer.store.anchor_logs;
}
  where
    count-Kept : (c : Credential) → Kept c (count_verification now c)
    count-Kept c = record {
      same = refl;
      hashes = inl (refl, refl);
      stays_revoked = λ x. x;
      stays_deleted = λ x. x;
    }

-- What a recorded verification leaves of the credentials.
recorded_rows :
    (cs : List Credential) (logs : List VerificationLog) (row : VerificationLog)
    (o : Option Credential) (db : Db)
    → record_verification (record { credentials = cs; verification_logs = logs }) row ≡ ok (o, db)
    → (db.credentials ≡ cs)
      ⊎ (db.credentials
          ≡ update_where
              (Verification.has_id (or_else row.credential_id ""))
              (count_verification row.created_at)
              cs)
unfolding record_verification commit_verification
recorded_rows cs logs row o db e = ground arith

verified-Grows :
    (s : Registrar) (logs : List VerificationLog) (row : VerificationLog) (o : Option Credential)
    (db : Db)
    → IsSound (rows s)
    → record_verification (record { credentials = rows s; verification_logs = logs }) row
      ≡ ok (o, db)
    → Grows s (with_rows db.credentials s)
verified-Grows s logs row o db h e = elim (recorded_rows (rows s) logs row o db e) [
  | inl x ↦ subst (λ cs. Grows s (with_rows cs s)) (sym x) (Grows-refl s h)
  | inr x ↦
      subst (λ cs. Grows s (with_rows cs s)) (sym x)
        (counted-Grows s (Verification.has_id (or_else row.credential_id "")) row.created_at h)
]

map-update_where :
    (f : Credential → Credential) (xs : List Credential) → update_where (λ _. true) f xs ≡ map f xs
map-update_where f [] = refl
map-update_where f (c ∷ xs) = ap (λ l. f c ∷ l) (map-update_where f xs)

-- The row of an issuer has the id by which it was found.
found_issuer :
    (issuers : List Issuer) (i : Issuer) (o : Option Issuer)
    → find_first (has_issuer_id i.id) issuers ≡ o
    → (or_else o i).id ≡ i.id
found_issuer issuers i none e = refl
found_issuer issuers i (some j) e =
    (eq_iff j.id i.id).0 (find_first-holds (has_issuer_id i.id) issuers j e)

with_issuer-Kept : (issuers : List Issuer) (c : Credential) → Kept c (with_issuer issuers c)
with_issuer-Kept issuers c = record {
  same =
      ap (λ (i : String). record (fixed c) { issuer_id = i })
        (found_issuer issuers c.issuer _ refl);
  hashes = inl (refl, refl);
  stays_revoked = λ h. h;
  stays_deleted = λ h. h;
}

-- An update of the institution writes no log.
update-audit :
    (v : Setting) (dto : UpdateInstitutionDto) (admin_id : Option String) (s : Accounts)
    → (Institution.update_institution v dto admin_id s).1.audit_log ≡ s.audit_log
unfolding Institution.update_institution active_institution
update-audit v dto admin_id s = ground arith

after-Grows :
    (s : Registrar) (r : Result Issuer × Accounts)
    → IsSound (rows s)
    → r.1.audit_log ≡ s.accounts.audit_log
    → Grows s (after_update s r).1
after-Grows s (r, accounts) h e =
    let f = with_issuer accounts.issuers in
    let same = map-update_where f (rows s) in
    record {
      sound = subst IsSound same (
          update_where-IsSound (λ _. true) f (λ c _. with_issuer-Kept accounts.issuers c) (rows s) h
            (All-IsOrderly (λ _. true) f (rows s) (λ c o. o) h.orderly));
      registry = subst (Extends (rows s)) same (
          Extends-update_where (λ _. true) f (λ c _. with_issuer-Kept accounts.issuers c) (rows s));
      audited =
          subst (Continues s.accounts.audit_log) (sym e) (Continues-refl s.accounts.audit_log);
      logged = Continues-refl s.producer.store.anchor_logs;
    }

edited-Grows :
    (v : Setting) (dto : UpdateInstitutionDto) (admin_id : Option String) (s : Registrar)
    → IsSound (rows s)
    → Grows s (update_institution v dto admin_id s).1
unfolding update_institution
edited-Grows v dto admin_id s h =
    after-Grows s (Institution.update_institution v dto admin_id s.accounts) h
      (update-audit v dto admin_id s.accounts)

step-Grows : (s s' : Registrar) → IsSound (rows s) → Step s s' → Grows s s'
step-Grows s _ h (created t admin input) = create-Grows t admin input s h
step-Grows s _ h (bulk_issued t admin dto) = bulk_issue-Grows t admin dto s h
step-Grows s _ h (revoked t admin id dto) = revoke-Grows t admin id dto s h
step-Grows s _ h (bulk_revoked t admin ids dto) = bulk_revoke-Grows t admin ids dto s h
step-Grows s _ h (removed t admin id) = remove-Grows t admin id s h
step-Grows s _ h (bulk_deleted t admin ids) = bulk_delete-Grows t admin ids s h
step-Grows s _ h (secured t admin id file) = register_secure_pdf-Grows t admin id file s h
step-Grows s _ h (batch_secured t admin id) = register_batch-Grows t admin id s h
step-Grows s _ h (edited v dto admin_id) = edited-Grows v dto admin_id s h
step-Grows s _ h (verified logs row o db e) = verified-Grows s logs row o db h e
step-Grows s _ h (worked w job) = worked-Grows w job s h

-- From a sound registry, after any sequence of single and bulk issuings, revocations and deletions,
-- PDF registrations, edits of the institution, recorded verifications and runs of the worker, whatever
-- each returns or throws, and whatever storage, Redis, the chain and the commits of the bulk
-- revocations and deletions do: the registry stays sound (only revoked credentials are deleted, ids are
-- distinct, and no two live credentials share institution, student and degree); every row is still
-- there with its ids, codes and token, student, degree, batch and issuer, credential hash and registry
-- hash, signature and signed document; its document hash and its proof hash are both as they were, or
-- have become one and the same hash; it is revoked if it was revoked and deleted if it was deleted; and
-- the audit log and the lifecycle log only grow.
pub steps-Grows : (s s' : Registrar) → IsSound (rows s) → Steps s s' → Grows s s'
steps-Grows s _ h start = Grows-refl s h
steps-Grows s s' h (step {u = u} before last) =
    let g = steps-Grows s u h before in Grows-trans s u s' g (step-Grows u s' g.sound last)
