-- ===== src/Anchoring/Worker.antt =====
-- apps/worker/src/jobs/credential-anchor.ts: one run of a job of the credential anchor queue. The
-- log lines on stdout are left out, and the store's transactions commit.
use certiva.Prelude.{
  ℕ, ◌+◌, Bool, not, String, Option, none, some, Result, ok, err, ◌>>=◌, ◌===◌, leb, if◌then◌else◌,
  or_else, or_try, find_first,
}
use certiva.Assets.{◌<>◌}
use certiva.Registry.{Credential}
use certiva.Blockchain.{Rpc, Config}
use certiva.Anchoring.{
  Store, log_input, persist_lifecycle_log, has_id, update_credential, anchor, revoke, anchored,
  failed, revoke_failed,
}
use certiva.Anchoring.Chain.{ChainWrite, anchor_credential_on_chain, revoke_credential_on_chain}

-- A job of the queue; `attempts` is `opts.attempts`.
pub record AnchorJob : Type 0 where
  pub credential_id : String
  pub operation : String
  pub attempts_made : ℕ
  pub attempts : Option ℕ

pub record Outcome : Type 0 where
  pub status : String
  pub credential_id : String
  pub tx_hash : Option String

pub record World : Type 0 where
  pub rpc : Rpc
  pub config : Config
  pub now : ℕ

-- `result.anchoredAt ?? credential.anchoredAt ?? new Date()`
abbrev pub anchored_time : ℕ → ChainWrite → Credential → Option ℕ
anchored_time now r c = some (or_else r.anchored_at (or_else c.anchored_at now))

unfoldable pub anchored_row : ℕ → Credential → ChainWrite → Credential → Credential
anchored_row now c r row = record row {
  tx_hash = or_try r.tx_hash c.tx_hash;
  chain_id = some r.chain_id;
  anchored_at = anchored_time now r c;
  block_number = or_try r.block_number c.block_number;
  anchor_status = anchored;
  chain_status = anchored;
  chain_synced_at = some now;
  anchor_version = "V2";
  issuer_wallet = c.issuer.wallet;
  chain_metadata = some (anchor, r.already_processed);
}

unfoldable pub revoked_row : ℕ → Credential → ChainWrite → Credential → Credential
revoked_row now c r row = record row {
  revocation_tx_hash = or_try r.tx_hash c.revocation_tx_hash;
  chain_status = "REVOKED";
  chain_synced_at = some now;
  chain_metadata = some (revoke, r.already_processed);
}

unfoldable pub commit_anchor : ℕ → ℕ → Credential → Store → ChainWrite → Outcome × Store
unfolding anchored_row
commit_anchor now attempt c s r = (
  record { status = anchored; credential_id = c.id; tx_hash = r.tx_hash },
  persist_lifecycle_log c.id
      (record {
        operation = anchor;
        status = anchored;
        tx_hash = or_try r.tx_hash c.tx_hash;
        chain_id = some r.chain_id;
        block_number = or_try r.block_number c.block_number;
        attempts = attempt;
        error_message = none;
      })
      (update_credential c.id (anchored_row now c r) s),
)

unfoldable pub commit_revoke : ℕ → ℕ → Credential → Store → ChainWrite → Outcome × Store
unfolding revoked_row
commit_revoke now attempt c s r = (
  record { status = "REVOKED"; credential_id = c.id; tx_hash = r.tx_hash },
  persist_lifecycle_log c.id
      (record {
        operation = revoke;
        status = "REVOKED";
        tx_hash = r.tx_hash;
        chain_id = some r.chain_id;
        block_number = r.block_number;
        attempts = attempt;
        error_message = none;
      })
      (update_credential c.id (revoked_row now c r) s),
)

-- The body of the `try`: an operation that is neither of the two never reaches the chain.
unfoldable pub run_operation : World → ℕ → String → Credential → Store → Result (Outcome × Store)
unfolding commit_anchor commit_revoke
run_operation w attempt operation c s =
    if operation === anchor
    then (do
      r ← anchor_credential_on_chain w.rpc w.config w.now c
      ok (commit_anchor w.now attempt c s r))
    else if not (operation === revoke)
    then err ("Unsupported operation " <> operation <> " on the credential anchor queue.")
    else (do
      r ← revoke_credential_on_chain w.rpc w.config c
      ok (commit_revoke w.now attempt c s r))

-- `finalStatus`: what the last failed attempt writes on the credential.
unfoldable pub final_status : Bool → String → Option (Credential → Credential)
final_status final operation =
    if final
    then (if operation === anchor
        then some (λ c. record c { anchor_status = failed; chain_status = failed })
        else if operation === revoke
        then some (λ c. record c { chain_status = revoke_failed })
        else none)
    else none

abbrev pub apply_status : String → Option (Credential → Credential) → Store → Store
apply_status id none s = s
apply_status id (some f) s = update_credential id f s

-- The body of the `catch`.
unfoldable pub fail_operation : ℕ → Bool → String → Credential → Store → String → Store
unfolding final_status
fail_operation attempt final operation c s message =
    persist_lifecycle_log c.id
      (record (log_input operation (if final then failed else "RETRYING")) {
        attempts = attempt;
        error_message = some message;
      })
      (apply_status c.id (final_status final operation) s)

-- The run ends with the outcome, or the error is thrown again after it has been recorded.
unfoldable pub finish_job :
    ℕ → Bool → String → Credential → Store → Result (Outcome × Store) → Result Outcome × Store
finish_job attempt final operation c s (ok (outcome, s')) = (ok outcome, s')
finish_job attempt final operation c s (err message) =
    (err message, fail_operation attempt final operation c s message)

abbrev pub is_final : AnchorJob → Bool
is_final job = leb (or_else job.attempts 1) (job.attempts_made + 1)

unfoldable pub run_job : World → AnchorJob → Option Credential → Store → Result Outcome × Store
unfolding finish_job
run_job w job none s = (err ("Credential " <> job.credential_id <> " not found."), s)
run_job w job (some c) s =
    finish_job (job.attempts_made + 1) (is_final job) job.operation c s
      (run_operation w (job.attempts_made + 1) job.operation c s)

-- `processCredentialAnchor`
unfoldable pub process_credential_anchor : World → AnchorJob → Store → Result Outcome × Store
unfolding run_job has_id
process_credential_anchor w job s =
    run_job w job (find_first (has_id job.credential_id) s.credentials) s
