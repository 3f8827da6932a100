-- ===== src/Anchoring/Outcomes.antt =====
-- How a run of an anchoring job ends, for every operation, and what the credential then says.
use certiva.Prelude.{
  ℕ, ◌+◌, true, false, ◌≡◌, ◌≢◌, refl, sym, ap, subst, String, Option, none, some, Result, ok, err,
  ◌>>=◌, ◌===◌, find_first, find_first-holds, find_first-update_where, arith, eq_iff,
}
use certiva.Assets.{◌<>◌}
use certiva.Registry.{Credential}
use certiva.Blockchain.{Rpc, Config}
use certiva.Anchoring.{
  Store, LogInput, persist_lifecycle_log, has_id, update_credential, anchor, revoke,
}
use certiva.Anchoring.Chain.{
  ChainProof, ChainWrite, read_proof, assert_issuer_wallet, is_anchored_as, anchor_from,
  anchor_credential_on_chain,
}
use certiva.Anchoring.Worker.{
  AnchorJob, Outcome, World, anchored_row, commit_anchor, run_operation, final_status,
  fail_operation, finish_job, is_final, run_job, process_credential_anchor,
}

module _ (job_id : String) (s : Store) (c : Credential)
    (found : find_first (has_id job_id) s.credentials ≡ some c) where
  by_own_id : find_first (has_id c.id) s.credentials ≡ some c
  unfolding has_id
  by_own_id =
      let same = (eq_iff c.id job_id).0 (find_first-holds (has_id job_id) s.credentials c found) in
      subst (λ i. find_first (has_id i) s.credentials ≡ some c) (sym same) found

  updated_row :
      (f : Credential → Credential) (input : LogInput)
      → ((d : Credential) → (f d).id ≡ d.id)
      → find_first
          (has_id c.id)
          (persist_lifecycle_log c.id input (update_credential c.id f s)).credentials
        ≡ some (f c)
  unfolding persist_lifecycle_log update_credential has_id
  updated_row f input same =
      find_first-update_where (has_id c.id) f s.credentials c (λ d h. rw (same d) h) by_own_id

module _ (w : World) (job : AnchorJob) (s : Store) (c : Credential) where
  anchored_run :
      (r : ChainWrite)
      → find_first (has_id job.credential_id) s.credentials ≡ some c
      → job.operation ≡ anchor
      → anchor_credential_on_chain w.rpc w.config w.now c ≡ ok r
      → ((run_job w job (some c) s).0
          ≡ ok (record { status = "ANCHORED"; credential_id = c.id; tx_hash = r.tx_hash }))
        × (find_first (has_id c.id) (run_job w job (some c) s).1.credentials
            ≡ some (anchored_row w.now c r c))
  unfolding run_job finish_job run_operation commit_anchor anchored_row
  anchored_run r found op e =
      rw ((eq_iff job.operation anchor).1 op, e)
        (refl, updated_row job.credential_id s c found (anchored_row w.now c r) _ (λ _. refl))

  run_unsupported :
      (x : World) (attempt : ℕ)
      → (job.operation === anchor) ≡ false
      → (job.operation === revoke) ≡ false
      → run_operation x attempt job.operation c s
        ≡ err ("Unsupported operation " <> job.operation <> " on the credential anchor queue.")
  unfolding run_operation
  run_unsupported x attempt n u = rw (n, u) refl

  final_status-none :
      (job.operation === anchor) ≡ false
      → (job.operation === revoke) ≡ false
      → final_status (is_final job) job.operation ≡ none
  unfolding final_status
  final_status-none n u = ground (arith, n, u)

  unsupported_run :
      (w' : World)
      → job.operation ≢ anchor
      → job.operation ≢ revoke
      → (run_job w job (some c) s ≡ run_job w' job (some c) s)
        × ((run_job w job (some c) s).1.credentials ≡ s.credentials)
        × ((r : Outcome) → (run_job w job (some c) s).0 ≢ ok r)
  unfolding run_job finish_job fail_operation persist_lifecycle_log
  unsupported_run w' n u =
      let not_anchor : (job.operation === anchor) ≡ false =
        ground (arith, eq_iff job.operation anchor) in
      let not_revoke : (job.operation === revoke) ≡ false =
        ground (arith, eq_iff job.operation revoke) in
      let fails = λ (x : World). run_unsupported x (job.attempts_made + 1) not_anchor not_revoke in
      rw (fails w, fails w', final_status-none not_anchor not_revoke) (refl, refl, λ r. cc)

-- A run that anchors a stored credential ends well, and the credential then holds the receipt:
-- both columns ANCHORED, the new transaction and block, or the stored ones where the chain
-- already had the proof.
pub process_anchored :
    (w : World) (job : AnchorJob) (s : Store) (c : Credential) (r : ChainWrite)
    → find_first (has_id job.credential_id) s.credentials ≡ some c
    → job.operation ≡ anchor
    → anchor_credential_on_chain w.rpc w.config w.now c ≡ ok r
    → ((process_credential_anchor w job s).0
        ≡ ok (record { status = "ANCHORED"; credential_id = c.id; tx_hash = r.tx_hash }))
      × (find_first (has_id c.id) (process_credential_anchor w job s).1.credentials
          ≡ some (anchored_row w.now c r c))
unfolding process_credential_anchor
process_anchored w job s c r found op e = rw found (anchored_run w job s c r found op e)

-- For a stored credential, an operation that is neither an anchor nor a revocation fails
-- without reaching the chain: the same error and the same store come from every node and every
-- configuration, and no credential changes, not even on the last attempt.
pub process_unsupported :
    (w w' : World) (job : AnchorJob) (s : Store) (c : Credential)
    → find_first (has_id job.credential_id) s.credentials ≡ some c
    → job.operation ≢ anchor
    → job.operation ≢ revoke
    → (process_credential_anchor w job s ≡ process_credential_anchor w' job s)
      × ((process_credential_anchor w job s).1.credentials ≡ s.credentials)
      × ((r : Outcome) → (process_credential_anchor w job s).0 ≢ ok r)
unfolding process_credential_anchor
process_unsupported w w' job s c found n u = rw found (unsupported_run w job s c w' n u)

module _ (rpc : Rpc) (cfg : Config) (c : Credential)
    (write : String → String → Option String → Result (String × ℕ)) where
  reads_same :
      (assert_issuer_wallet (record rpc { write = write }) cfg c ≡ assert_issuer_wallet rpc cfg c)
      × (read_proof (record rpc { write = write }) cfg c.id ≡ read_proof rpc cfg c.id)
  unfolding assert_issuer_wallet read_proof
  reads_same = (refl, refl)

  anchor_from_same :
      (now : ℕ) (proof : ChainProof)
      → proof.exists ≡ true
      → anchor_from (record rpc { write = write }) cfg now c proof ≡ anchor_from rpc cfg now c proof
  unfolding anchor_from is_anchored_as
  anchor_from_same now proof x = simp x

-- Anchoring again sends nothing: where the proof on chain already exists, the result is the same
-- whatever a transaction would do, so a retry cannot write twice.
pub anchor_again :
    (rpc : Rpc) (cfg : Config) (now : ℕ) (c : Credential) (proof : ChainProof)
    (write : String → String → Option String → Result (String × ℕ))
    → read_proof rpc cfg c.id ≡ ok proof
    → proof.exists ≡ true
    → anchor_credential_on_chain (record rpc { write = write }) cfg now c
      ≡ anchor_credential_on_chain rpc cfg now c
unfolding anchor_credential_on_chain
anchor_again rpc cfg now c proof write e x =
    rw ((reads_same rpc cfg c write).0, (reads_same rpc cfg c write).1, e)
      (ap (λ m. assert_issuer_wallet rpc cfg c >>= λ _. m)
        (anchor_from_same rpc cfg c write now proof x))
