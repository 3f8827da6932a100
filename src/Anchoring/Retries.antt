-- ===== src/Anchoring/Retries.antt =====
-- A job of apps/worker/src/jobs/credential-anchor.ts that fails again and again, from its first attempt
-- to its last.
use mathlib.Core.List.{append_assoc, append-nil}
use certiva.Prelude.{
  ℕ, ◌+◌, ◌≤◌, Bool, true, false, ◌≡◌, refl, sym, ap, subst, ◌∙◌, inl, inr, String, none, some,
  List, [], ◌∷◌, ◌++◌, Result, ok, err, ◌===◌, if◌then◌else◌, find_first, update_where, length,
  length-append, Bool-cases, arith, leb, or_else, ◌==◌,
}
use certiva.Registry.{Credential, AnchorLog}
use certiva.Anchoring.{
  update_credential, Store, has_id, log_input, log_row, persist_lifecycle_log, anchor, revoke,
  failed,
}
use certiva.Anchoring.Worker.{
  AnchorJob, Outcome, World, run_operation, final_status, fail_operation, finish_job, run_job,
  process_credential_anchor,
}

-- The job at its run number `k`, from 0.
abbrev pub at_run : AnchorJob → ℕ → AnchorJob
at_run job k = record job { attempts_made = k }

-- Runs of a job that all fail, each in a world of its own: from the first on, `k` of them, with their
-- errors.
pub data Fails (job : AnchorJob) (s : Store) : ℕ → List String → Store → Type 0 where
  none_yet : Fails job s 0 [] s
  once_more :
      {k : ℕ} {messages : List String} {u : Store}
      → Fails job s k messages u
      → (w : World) (message : String)
      → (process_credential_anchor w (at_run job k) u).0 ≡ err message
      → Fails job s
          (k + 1)
          (messages ++ message ∷ [])
          (process_credential_anchor w (at_run job k) u).1

-- The row that a failed attempt, counted from 1, adds to the lifecycle log.
abbrev pub attempt_row : String → String → ℕ → ℕ → String → AnchorLog
attempt_row id operation limit attempt message = record {
  credential_id = id;
  operation = operation;
  status = if attempt == limit then "FAILED" else "RETRYING";
  tx_hash = none;
  chain_id = none;
  block_number = none;
  attempts = attempt;
  error_message = some message;
}

abbrev pub attempt_rows : String → String → ℕ → ℕ → List String → List AnchorLog
attempt_rows id operation limit attempt [] = []
attempt_rows id operation limit attempt (m ∷ rest) =
    attempt_row id operation limit attempt m ∷ attempt_rows id operation limit (attempt + 1) rest

-- What an exhausted job leaves on its credential.
abbrev pub exhausted : String → Credential → Credential
exhausted operation =
    if operation === "ISSUANCE"
    then (λ c. record c { anchor_status = "FAILED"; chain_status = "FAILED" })
    else if operation === "REVOCATION"
    then (λ c. record c { chain_status = "REVOKE_FAILED" })
    else (λ c. c)

attempt_rows-append :
    (id operation : String) (limit a : ℕ) (ms : List String) (m : String)
    → attempt_rows id operation limit a (ms ++ m ∷ [])
      ≡ attempt_rows id operation limit a ms
        ++ attempt_row id operation limit (a + length ms) m ∷ []
attempt_rows-append id operation limit a [] m =
    ap (λ n. attempt_row id operation limit n m ∷ []) (omega arith)
attempt_rows-append id operation limit a (x ∷ ms) m =
    ap (◌∷◌ (attempt_row id operation limit a x)) (
      attempt_rows-append id operation limit (a + 1) ms m
      ∙ ap
          (λ n.
            attempt_rows id operation limit (a + 1) ms ++ attempt_row id operation limit n m ∷ [])
          (omega arith))

update_where-same : (p : Credential → Bool) (cs : List Credential) → update_where p (λ c. c) cs ≡ cs
update_where-same p [] = refl
update_where-same p (c ∷ cs) = elim (Bool-cases (p c)) [
  | inl t ↦ simp t (ap (◌∷◌ c) (update_where-same p cs))
  | inr n ↦ simp n (ap (◌∷◌ c) (update_where-same p cs))
]

module _ (job : AnchorJob) (c : Credential) (limit : ℕ) where
  -- The store after a failed attempt, counted from 1.
  abbrev after_attempt : ℕ → Store → String → Store
  after_attempt attempt u message = record {
    credentials =
        if attempt == limit
        then update_where (has_id c.id) (exhausted job.operation) u.credentials
        else u.credentials;
    anchor_logs = u.anchor_logs ++ attempt_row c.id job.operation limit attempt message ∷ [];
  }

  failed-store :
      (attempt : ℕ) (final : Bool) (u : Store) (message : String)
      → final ≡ (attempt == limit)
      → fail_operation attempt final job.operation c u message ≡ after_attempt attempt u message
  unfolding fail_operation final_status persist_lifecycle_log update_credential
  failed-store attempt false u message e = rw⁻¹ e refl
  failed-store attempt true u message e = rw⁻¹ e (elim (Bool-cases (job.operation === anchor)) [
    | inl t ↦ rw t refl
    | inr n ↦ elim (Bool-cases (job.operation === revoke)) [
      | inl t ↦ rw (n, t) refl
      | inr m ↦
          rw (n, m)
            (ap
              (λ cs. record {
                credentials = cs;
                anchor_logs =
                    u.anchor_logs
                    ++ log_row c.id (record (log_input job.operation failed) {
                      attempts = attempt;
                      error_message = some message;
                    })
                      ∷ [];
              })
              (sym (update_where-same (has_id c.id) u.credentials)))
    ]
  ])

  finished-store :
      (attempt : ℕ) (final : Bool) (u : Store) (r : Result (Outcome × Store)) (message : String)
      → (finish_job attempt final job.operation c u r).0 ≡ err message
      → (finish_job attempt final job.operation c u r).1
        ≡ fail_operation attempt final job.operation c u message
  unfolding finish_job
  finished-store attempt final u (ok (o, s')) message e = cc
  finished-store attempt final u (err m) message e = cc

  -- A run that fails, from a store that holds the credential.
  failing_run :
      (w : World) (k : ℕ) (u : Store) (message : String)
      → find_first (has_id job.credential_id) u.credentials ≡ some c
      → or_else job.attempts 1 ≡ limit
      → k + 1 ≤ limit
      → (process_credential_anchor w (at_run job k) u).0 ≡ err message
      → (process_credential_anchor w (at_run job k) u).1 ≡ after_attempt (k + 1) u message
  unfolding process_credential_anchor run_job
  failing_run w k u message found most within e =
      let last : leb (or_else job.attempts 1) (k + 1) ≡ (k + 1 == limit) = rw most (ground arith) in
      rw found (
        finished-store (k + 1) (leb (or_else job.attempts 1) (k + 1)) u
          (run_operation w (k + 1) job.operation c u) message
          (subst (λ o. (run_job w (at_run job k) o u).0 ≡ err message) found e)
        ∙ failed-store (k + 1) _ u message last)

Fails-length :
    (job : AnchorJob) (s : Store) {k : ℕ} {messages : List String} {u : Store}
    → Fails job s k messages u
    → length messages ≡ k
Fails-length job s none_yet = refl
Fails-length job s (once_more {messages = ms} before w m e) =
    length-append {0} ms (m ∷ []) ∙ ap (λ n. n + 1) (Fails-length job s before)

-- A job that fails on every attempt, for a stored credential, shows it on its last attempt and no
-- sooner. After `k` failed runs, of the `limit` that the job allows (at least one, and one if it
-- does not say), the lifecycle log has one row more for each, in order, with its number and its error, FAILED for the last
-- one allowed and RETRYING for those before; no credential has changed as long as attempts are left; and
-- then only the one of the job has: an anchor is FAILED in both columns, a revocation REVOKE_FAILED with
-- its anchor status kept, and any other operation leaves it alone.
pub retries_settle :
    (job : AnchorJob) (s u : Store) (c : Credential) (limit k : ℕ) (messages : List String)
    → find_first (has_id job.credential_id) s.credentials ≡ some c
    → or_else job.attempts 1 ≡ limit
    → 1 ≤ limit
    → k ≤ limit
    → Fails job s k messages u
    → (u.credentials ≡ (
        if k == limit
        then update_where (has_id c.id) (exhausted job.operation) s.credentials
        else s.credentials))
      × (u.anchor_logs ≡ s.anchor_logs ++ attempt_rows c.id job.operation limit 1 messages)
retries_settle job s _ c limit _ _ found most some_left within none_yet =
    (rw (not_yet limit some_left) refl, sym (append-nil s.anchor_logs))
  where
    not_yet : (n : ℕ) → 1 ≤ n → (0 == n) ≡ false
    not_yet n h = ground arith
retries_settle job s _ c limit _ _ found most some_left within
      (once_more {k = k} {messages = ms} {u = v} before w m e) =
    let (same, logs) =
      retries_settle job s v c limit k ms found most some_left (omega arith) before in
    let early : (k == limit) ≡ false = ground arith in
    let here : v.credentials ≡ s.credentials = same ∙ rw early refl in
    let run =
      failing_run job c limit w k v m (ap (find_first (has_id job.credential_id)) here ∙ found) most
        within e in
    (
      ap (λ (x : Store). x.credentials) run ∙ rw here refl,
      ap (λ (x : Store). x.anchor_logs) run
          ∙ ap (λ l. l ++ attempt_row c.id job.operation limit (k + 1) m ∷ []) logs
          ∙ append_assoc s.anchor_logs _ _
          ∙ ap (λ l. s.anchor_logs ++ l)
              (ap
                  (λ n.
                    attempt_rows c.id job.operation limit 1 ms
                    ++ attempt_row c.id job.operation limit n m ∷ [])
                  (omega (arith, Fails-length job s before))
                ∙ sym (attempt_rows-append c.id job.operation limit 1 ms m)),
    )
