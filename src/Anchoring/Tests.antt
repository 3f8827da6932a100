-- ===== src/Anchoring/Tests.antt =====
-- The queue and the worker on a store of two credentials, and the theorems about them there.
use certiva.Prelude.{
  update_where, arith, true, false, ◌≡◌, ◌⊎◌, refl, String, some, List, [], ◌∷◌, ◌++◌, ok, err,
  find_first,
}
use certiva.Blockchain.{is_configured, Rpc}
use certiva.Text.{is_hex64, to_lower_case, trim}
use certiva.Anchoring.{
  persist_lifecycle_log, Store, has_id, log_input, log_row, revoke, pending, revoke_enqueue_failed,
}
use certiva.Anchoring.Queue.{Add, Job, Producer, revoke_job, revoke_or_mark}
use certiva.Anchoring.Enqueue.{failure_row, revoke_settles}
use certiva.Anchoring.Chain.{
  ChainProof, ChainWrite, get_account, to_bytes32_proof_hash, read_proof, assert_issuer_wallet,
  is_anchored_as, anchor_from, anchor_credential_on_chain, revoke_credential_on_chain,
}
use certiva.Anchoring.Worker.{
  AnchorJob, World, run_operation, run_job, finish_job, fail_operation, final_status,
  process_credential_anchor,
}
use certiva.Anchoring.Frame.{Advances, process-Advances}
use certiva.Anchoring.Outcomes.{anchor_again}
use certiva.Anchoring.Retries.{
  at_run, Fails, none_yet, once_more, attempt_rows, exhausted, retries_settle,
}
use certiva.Fixtures.{credential, other, node, dead_node, config}

-- What a run of the worker unfolds.
worker_run : Unit {0}
unfolding run_operation anchor_credential_on_chain revoke_credential_on_chain read_proof
    assert_issuer_wallet get_account is_configured to_bytes32_proof_hash is_hex64 to_lower_case trim
    anchor_from is_anchored_as has_id
worker_run = tt

abbrev store : Store
store = record { credentials = other ∷ credential ∷ []; anchor_logs = [] }

abbrev job : String → AnchorJob
job operation = record {
  credential_id = "crd_1";
  operation = operation;
  attempts_made = 4;
  attempts = some 5;
}

abbrev world : Rpc → World
world rpc = record { rpc = rpc; config = config; now = 9 }

-- A fresh node: the proof is not there yet.
abbrev fresh_node : Rpc
fresh_node = record (node false) { credential_exists = λ _. ok false }

abbrev written : ChainWrite
written = record {
  tx_hash = some "0xtx";
  block_number = some 7;
  anchored_at = some 9;
  chain_id = 80002;
  already_processed = false;
}

found : find_first (has_id "crd_1") store.credentials ≡ some credential
unfolding worker_run
found = refl

process-Advances_example :
    Advances "crd_1" 5 store (process_credential_anchor (world fresh_node) (job "ISSUANCE") store).1
process-Advances_example =
    process-Advances (world fresh_node) (job "ISSUANCE") store credential found

-- A revocation that is tried twice, both times without a node.
abbrev twice : AnchorJob
twice = record (job "REVOCATION") { attempts = some 2 }

abbrev once_failed : Store
once_failed = (process_credential_anchor (world dead_node) (at_run twice 0) store).1

abbrev twice_failed : Store
twice_failed = (process_credential_anchor (world dead_node) (at_run twice 1) once_failed).1

both_fail : Fails twice store 2 ("timeout" ∷ "timeout" ∷ []) twice_failed
unfolding process_credential_anchor run_job finish_job worker_run fail_operation final_status
    persist_lifecycle_log
both_fail =
    once_more (once_more none_yet (world dead_node) "timeout" refl) (world dead_node) "timeout" refl

retries_settle_example :
    (twice_failed.credentials
      ≡ update_where (has_id "crd_1") (exhausted "REVOCATION") store.credentials)
    × (twice_failed.anchor_logs
        ≡ [] ++ attempt_rows "crd_1" "REVOCATION" 2 1 ("timeout" ∷ "timeout" ∷ []))
retries_settle_example =
    retries_settle twice store twice_failed credential 2 2 ("timeout" ∷ "timeout" ∷ []) found refl
      (omega arith) (omega arith) both_fail

abbrev on_chain : ChainProof
on_chain = record {
  document_hash = "0x00000000000000000000000000000000000000000000000000000000000000aa";
  issuer = "0xA1";
  issued_at = 3;
  revoked = false;
  issuer_authorized = true;
  exists = true;
}

anchor_again_example :
    anchor_credential_on_chain
      (record (node false) { write = λ _ _ _. err "reverted" })
      config
      9
      credential
    ≡ anchor_credential_on_chain (node false) config 9 credential
unfolding worker_run
anchor_again_example =
    anchor_again (node false) config 9 credential on_chain (λ _ _ _. err "reverted") refl refl

abbrev unreachable : Add
unreachable jobs job = err "ECONNREFUSED"

abbrev producer : Producer
producer = record { store = store; jobs = []; enabled = true }

revoke_settles_example :
    let after = revoke_or_mark unreachable "crd_1" producer in
    ((jobs : List Job) × (unreachable [] (revoke_job "crd_1") ≡ ok jobs)
      × (after.jobs ≡ jobs)
      × (after.store.credentials ≡ store.credentials)
      × (after.store.anchor_logs ≡ [] ++ log_row "crd_1" (log_input revoke pending) ∷ []))
    ⊎ ((e : String) × (unreachable [] (revoke_job "crd_1") ≡ err e)
        × (after.jobs ≡ [])
        × (find_first (has_id "crd_1") after.store.credentials
            ≡ some (record credential { chain_status = revoke_enqueue_failed }))
        × (after.store.anchor_logs
            ≡ ([] ++ log_row "crd_1" (log_input revoke pending) ∷ [])
              ++ failure_row "crd_1" revoke e ∷ []))
revoke_settles_example = revoke_settles unreachable "crd_1" producer credential _ refl found refl
