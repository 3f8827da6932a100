-- ===== src/Anchoring/Frame.antt =====
-- What a run of an anchoring job may change: the chain columns of credentials, and one log row.
use certiva.Prelude.{
  ℕ, ◌+◌, Bool, ◌≡◌, inl, inr, refl, ap, subst, String, Option, none, some, List, [], ◌∷◌, ◌++◌,
  map, Result, ok, err, ◌>>=◌, ◌===◌, find_first, update_where, Bool-cases, arith,
}
use certiva.Registry.{Credential, AnchorLog}
use certiva.Anchoring.{
  Store, LogInput, log_row, persist_lifecycle_log, has_id, update_credential, anchor, revoke,
}
use certiva.Anchoring.Chain.{ChainWrite, anchor_credential_on_chain, revoke_credential_on_chain}
use certiva.Anchoring.Worker.{
  AnchorJob, Outcome, World, anchored_row, revoked_row, commit_anchor, commit_revoke, run_operation,
  final_status, apply_status, fail_operation, finish_job, is_final, run_job,
  process_credential_anchor,
}

-- A credential without what the chain writes on it: identity, content, signature, revocation and
-- verification count remain.
abbrev pub registered : Credential → Credential
registered c = record c {
  tx_hash = none;
  revocation_tx_hash = none;
  chain_id = none;
  anchored_at = none;
  block_number = none;
  anchor_status = "";
  chain_status = "";
  chain_synced_at = none;
  anchor_version = "";
  issuer_wallet = none;
  chain_metadata = none;
}

pub registered-update_where :
    (p : Credential → Bool) (f : Credential → Credential) (cs : List Credential)
    → ((c : Credential) → registered (f c) ≡ registered c)
    → map registered (update_where p f cs) ≡ map registered cs
registered-update_where p f [] h = refl
registered-update_where p f (c ∷ cs) h = elim (Bool-cases (p c)) [
  | inl t ↦ rw (t, h c, registered-update_where p f cs h) refl
  | inr n ↦ rw (n, registered-update_where p f cs h) refl
]

-- The store moved on by one log row of this credential and attempt, and the registry is the same.
pub record Advances (id : String) (attempt : ℕ) (s s' : Store) : Type 0 where
  pub registry : map registered s'.credentials ≡ map registered s.credentials
  pub row : AnchorLog
  pub appended : s'.anchor_logs ≡ s.anchor_logs ++ row ∷ []
  pub about : row.credential_id ≡ id
  pub counted : row.attempts ≡ attempt

module _ (id : String) (attempt : ℕ) (input : LogInput) (same : input.attempts ≡ attempt)
    (s : Store) where
  log-Advances : Advances id attempt s (persist_lifecycle_log id input s)
  unfolding persist_lifecycle_log
  log-Advances = record {
    registry = refl;
    row = log_row id input;
    appended = refl;
    about = refl;
    counted = same;
  }

  update-Advances :
      (f : Credential → Credential)
      → ((c : Credential) → registered (f c) ≡ registered c)
      → Advances id attempt s (persist_lifecycle_log id input (update_credential id f s))
  unfolding persist_lifecycle_log update_credential
  update-Advances f h = record {
    registry = registered-update_where (has_id id) f s.credentials h;
    row = log_row id input;
    appended = refl;
    about = refl;
    counted = same;
  }

module _ (now attempt : ℕ) (c : Credential) (s : Store) (r : ChainWrite) where
  commit_anchor-Advances : Advances c.id attempt s (commit_anchor now attempt c s r).1
  unfolding commit_anchor anchored_row
  commit_anchor-Advances = update-Advances c.id attempt _ refl s (anchored_row now c r) (λ _. refl)

  commit_revoke-Advances : Advances c.id attempt s (commit_revoke now attempt c s r).1
  unfolding commit_revoke revoked_row
  commit_revoke-Advances = update-Advances c.id attempt _ refl s (revoked_row now c r) (λ _. refl)

module _ (attempt : ℕ) (final : Bool) (operation : String) (c : Credential) (s : Store)
    (message : String) where
  failed-Advances :
      (o : Option (Credential → Credential))
      → ((f : Credential → Credential)
          → o ≡ some f
          → (d : Credential) → registered (f d) ≡ registered d)
      → (input : LogInput) → input.attempts ≡ attempt
      → Advances c.id attempt s (persist_lifecycle_log c.id input (apply_status c.id o s))
  failed-Advances none h input e = log-Advances c.id attempt input e s
  failed-Advances (some f) h input e = update-Advances c.id attempt input e s f (h f refl)

  final_status-registered :
      (f : Credential → Credential)
      → final_status final operation ≡ some f
      → (d : Credential) → registered (f d) ≡ registered d
  unfolding final_status
  final_status-registered f e d = ground (arith, ap (apply_to d) e)
    where
      apply_to : Credential → Option (Credential → Credential) → Credential
      apply_to d none = d
      apply_to d (some g) = registered (g d)

  fail_operation-Advances :
      Advances c.id attempt s (fail_operation attempt final operation c s message)
  unfolding fail_operation
  fail_operation-Advances =
      failed-Advances (final_status final operation) final_status-registered _ refl

-- A chain call that returned is committed; one that threw is passed on.
committed :
    (P : Store → Type 0) (m : Result ChainWrite) (k : ChainWrite → Outcome × Store)
    {done : Outcome × Store}
    → ((r : ChainWrite) → P (k r).1)
    → (m >>= λ r. ok (k r)) ≡ ok done
    → P done.1
committed P (ok r) k h e = subst P (ap second e) (h r)
  where
    second : Result (Outcome × Store) → Store
    second (ok d) = d.1
    second (err m) = (k r).1
committed P (err m) k h e = cc

module _ (w : World) (job : AnchorJob) (c : Credential) (s : Store) where
  run_operation-Advances :
      (attempt : ℕ) (operation : String) (done : Outcome × Store)
      → run_operation w attempt operation c s ≡ ok done
      → Advances c.id attempt s done.1
  unfolding run_operation
  run_operation-Advances attempt operation done e = elim (Bool-cases (operation === anchor)) [
    | inl t ↦
        committed (Advances c.id attempt s) (anchor_credential_on_chain w.rpc w.config w.now c)
          (commit_anchor w.now attempt c s) (commit_anchor-Advances w.now attempt c s) (rw t at e)
    | inr n ↦ elim (Bool-cases (operation === revoke)) [
      | inl t ↦
          committed (Advances c.id attempt s) (revoke_credential_on_chain w.rpc w.config c)
            (commit_revoke w.now attempt c s) (commit_revoke-Advances w.now attempt c s)
            (rw (n, t) at e)
      | inr u ↦ cc (rw (n, u) at e)
    ]
  ]

  finish_job-Advances :
      (attempt : ℕ) (final : Bool) (operation : String) (r : Result (Outcome × Store))
      → run_operation w attempt operation c s ≡ r
      → Advances c.id attempt s (finish_job attempt final operation c s r).1
  unfolding finish_job
  finish_job-Advances attempt final operation (ok done) e =
      run_operation-Advances attempt operation done e
  finish_job-Advances attempt final operation (err m) e =
      fail_operation-Advances attempt final operation c s m

  run_job-Advances : Advances c.id (job.attempts_made + 1) s (run_job w job (some c) s).1
  unfolding run_job
  run_job-Advances = finish_job-Advances (job.attempts_made + 1) (is_final job) job.operation _ refl

-- Every run of a job whose credential exists adds exactly one lifecycle row, about that credential
-- and with the number of the attempt, and changes nothing of the registry but chain columns: no
-- identity, content, signature, revocation or count, whatever the operation and the chain's answer.
pub process-Advances :
    (w : World) (job : AnchorJob) (s : Store) (c : Credential)
    → find_first (has_id job.credential_id) s.credentials ≡ some c
    → Advances c.id (job.attempts_made + 1) s (process_credential_anchor w job s).1
unfolding process_credential_anchor
process-Advances w job s c e = rw e (run_job-Advances w job c s)
