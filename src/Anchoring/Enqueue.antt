-- ===== src/Anchoring/Enqueue.antt =====
-- What the callers of the producer in apps/api/src/modules/blockchain/blockchain-queue.service.ts are
-- left with, whatever Redis does.
use certiva.Prelude.{
  true, ◌≡◌, refl, inl, inr, ◌⊎◌, String, some, List, [], ◌∷◌, ◌++◌, Result, ok, err, find_first,
  find_first-update_where, update_where,
}
use certiva.Registry.{Credential, AnchorLog}
use certiva.Anchoring.{
  log_input, log_row, persist_lifecycle_log, has_id, update_credential, anchor, revoke, pending,
  failed, revoke_enqueue_failed,
}
use certiva.Anchoring.Queue.{
  Add, Job, Producer, revoke_job, enqueue_revoke, mark_queue_failure, revoke_or_mark, anchor_job,
  enqueue_anchor, mark_pending, anchor_or_mark,
}

-- The row of a failed enqueue, with the message of the error.
abbrev pub failure_row : String → String → String → AnchorLog
failure_row id operation message =
    log_row id (record (log_input operation failed) { error_message = some message })

-- The revocation of a stored credential is never lost. With the blockchain enabled, either the
-- job is on the queue and no credential changes, or the queue is as it was and the credential
-- says REVOKE_ENQUEUE_FAILED with its anchor status kept; a PENDING row is logged first in both
-- cases, followed by a FAILED row with the error in the second.
pub revoke_settles :
    (add : Add) (id : String) (p : Producer) (c : Credential) (r : Result (List Job))
    → p.enabled ≡ true
    → find_first (has_id id) p.store.credentials ≡ some c
    → add p.jobs (revoke_job id) ≡ r
    → let after = revoke_or_mark add id p in
      ((jobs : List Job) × (r ≡ ok jobs)
        × (after.jobs ≡ jobs)
        × (after.store.credentials ≡ p.store.credentials)
        × (after.store.anchor_logs
            ≡ p.store.anchor_logs ++ log_row id (log_input revoke pending) ∷ []))
      ⊎ ((e : String) × (r ≡ err e)
          × (after.jobs ≡ p.jobs)
          × (find_first (has_id id) after.store.credentials
              ≡ some (record c { chain_status = revoke_enqueue_failed }))
          × (after.store.anchor_logs
              ≡ (p.store.anchor_logs ++ log_row id (log_input revoke pending) ∷ [])
                ++ failure_row id revoke e ∷ []))
unfolding revoke_or_mark enqueue_revoke mark_queue_failure persist_lifecycle_log update_credential
revoke_settles add id p c (ok jobs) on found e =
    inl (jobs, refl, rw (on, e) refl, rw (on, e) refl, rw (on, e) refl)
revoke_settles add id p c (err m) on found e = inr (
  m,
  refl,
  rw (on, e) refl,
  rw (on, e)
      (find_first-update_where (has_id id) (λ d. record d { chain_status = revoke_enqueue_failed })
        p.store.credentials c (λ d h. unfold has_id in h) found),
  rw (on, e) refl,
)

-- An anchoring that is asked for, of a stored credential, is queued or visibly failed. With the
-- blockchain enabled, either the job is on the queue and the credential is PENDING in both
-- columns, or the queue is as it was and the credential is FAILED in both; the PENDING row is
-- logged first, and then the FAILED one.
pub anchor_settles :
    (add : Add) (id : String) (p : Producer) (c : Credential) (r : Result (List Job))
    → p.enabled ≡ true
    → find_first (has_id id) p.store.credentials ≡ some c
    → add p.jobs (anchor_job id) ≡ r
    → let after = anchor_or_mark add id p in
      ((jobs : List Job) × (r ≡ ok jobs)
        × (after.jobs ≡ jobs)
        × (find_first (has_id id) after.store.credentials ≡ some (mark_pending c))
        × (after.store.anchor_logs
            ≡ p.store.anchor_logs ++ log_row id (log_input anchor pending) ∷ []))
      ⊎ ((e : String) × (r ≡ err e)
          × (after.jobs ≡ p.jobs)
          × (find_first (has_id id) after.store.credentials
              ≡ some (record c { anchor_status = failed; chain_status = failed }))
          × (after.store.anchor_logs
              ≡ (p.store.anchor_logs ++ log_row id (log_input anchor pending) ∷ [])
                ++ failure_row id anchor e ∷ []))
unfolding anchor_or_mark enqueue_anchor mark_queue_failure persist_lifecycle_log update_credential
    mark_pending
anchor_settles add id p c (ok jobs) on found e = inl (
  jobs,
  refl,
  rw (on, e) refl,
  rw (on, e)
      (find_first-update_where (has_id id) mark_pending p.store.credentials c
        (λ d h. unfold has_id in h) found),
  rw (on, e) refl,
)
anchor_settles add id p c (err m) on found e =
    let marked =
      find_first-update_where (has_id id) mark_pending p.store.credentials c
        (λ d h. unfold has_id in h) found in
    inr (
      m,
      refl,
      rw (on, e) refl,
      rw (on, e)
          (find_first-update_where (has_id id)
            (λ d. record d { anchor_status = failed; chain_status = failed })
            (update_where (has_id id) mark_pending p.store.credentials) (mark_pending c)
            (λ d h. unfold has_id in h) marked),
      rw (on, e) refl,
    )
