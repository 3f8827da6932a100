-- ===== src/Anchoring/Queue.antt =====
-- apps/api/src/modules/blockchain/blockchain-queue.service.ts. BullMQ's `queue.add` is the argument
-- `add`: a new queue, or the error of a Redis that cannot be reached. The updated rows are those
-- of credentials that exist; Prisma's error for a missing row is not modelled.
use certiva.Prelude.{Bool, String, Option, none, some, List, Result, ok, err, ◌===◌, if◌then◌else◌}
use certiva.Assets.{◌<>◌}
use certiva.Registry.{Credential}
use certiva.Anchoring.{
  Store, log_input, persist_lifecycle_log, update_credential, anchor, revoke, pending, failed,
  revoke_enqueue_failed,
}

pub record Job : Type 0 where
  pub name : String
  pub credential_id : String
  pub operation : String
  pub job_id : String

-- What the producer works on: its store, its queue, and BLOCKCHAIN_ENABLED.
pub record Producer : Type 0 where
  pub store : Store
  pub jobs : List Job
  pub enabled : Bool

abbrev pub Add : Type 0
Add = List Job → Job → Result (List Job)

abbrev pub revoke_job : String → Job
revoke_job id = record {
  name = "REVOKE_CREDENTIAL";
  credential_id = id;
  operation = revoke;
  job_id = "REVOKE_CREDENTIAL-" <> id;
}

abbrev pub anchor_job : String → Job
anchor_job id = record {
  name = "ANCHOR_ISSUANCE";
  credential_id = id;
  operation = anchor;
  job_id = "ANCHOR_ISSUANCE-" <> id;
}

added : Producer → Result (List Job) → Result (Unit {0}) × Producer
added p (ok jobs) = (ok tt, record p { jobs = jobs })
added p (err e) = (err e, p)

-- The job is added after the transaction has committed; if that fails, the error is thrown and
-- the committed rows stay.
unfoldable pub add_job : Add → Job → Producer → Result (Unit {0}) × Producer
unfolding added
add_job add job p = added p (add p.jobs job)

unfoldable pub mark_pending : Credential → Credential
mark_pending c = record c { anchor_status = pending; chain_status = pending }

unfoldable pub enqueue_anchor : Add → String → Producer → Result (Unit {0}) × Producer
unfolding add_job mark_pending
enqueue_anchor add id p =
    if p.enabled
    then add_job add (anchor_job id) (record p {
      store =
          persist_lifecycle_log id (log_input anchor pending)
            (update_credential id mark_pending p.store);
    })
    else (ok tt, p)

unfoldable pub enqueue_revoke : Add → String → Producer → Result (Unit {0}) × Producer
unfolding add_job
enqueue_revoke add id p =
    if p.enabled
    then add_job add (revoke_job id)
        (record p { store = persist_lifecycle_log id (log_input revoke pending) p.store })
    else (ok tt, p)

-- The status that a failed enqueue leaves on the credential.
unfoldable pub queue_failure_status : String → Option (Credential → Credential)
queue_failure_status operation =
    if operation === anchor
    then some (λ c. record c { anchor_status = failed; chain_status = failed })
    else if operation === revoke
    then some (λ c. record c { chain_status = revoke_enqueue_failed })
    else none

abbrev pub apply_status : String → Option (Credential → Credential) → Store → Store
apply_status id none s = s
apply_status id (some f) s = update_credential id f s

unfoldable pub mark_queue_failure : String → String → String → Producer → Producer
unfolding queue_failure_status
mark_queue_failure id operation message p = record p {
  store =
      persist_lifecycle_log id
        (record (log_input operation failed) { error_message = some message })
        (apply_status id (queue_failure_status operation) p.store);
}

-- The callers' pattern: `try { enqueue } catch { markQueueFailure }`.
unfoldable pub settle : String → String → Result (Unit {0}) × Producer → Producer
settle id operation (ok _, p) = p
settle id operation (err e, p) = mark_queue_failure id operation e p

unfoldable pub revoke_or_mark : Add → String → Producer → Producer
unfolding settle
revoke_or_mark add id p = settle id revoke (enqueue_revoke add id p)

unfoldable pub anchor_or_mark : Add → String → Producer → Producer
unfolding settle
anchor_or_mark add id p = settle id anchor (enqueue_anchor add id p)
