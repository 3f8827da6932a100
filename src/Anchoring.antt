-- ===== src/Anchoring.antt =====
-- The anchoring of credentials on chain: the values that the API and the worker share
-- (packages/types/src/index.ts), the lifecycle log and the store that both write. `Queue` is the
-- API's producer, `Chain` and `Worker` are apps/worker.
mod Tests
pub mod Queue
pub mod Enqueue
pub mod Chain
pub mod Worker
pub mod Outcomes
pub mod Retries
pub mod Frame
use certiva.Prelude.{ℕ, Bool, String, Option, none, some, List, [], ◌∷◌, ◌++◌, ◌===◌, update_where}
use certiva.Registry.{Credential, AnchorLog}

-- BLOCKCHAIN_OPERATION, ANCHOR_STATUS and CHAIN_STATUS
abbrev pub anchor : String
anchor = "ISSUANCE"

abbrev pub revoke : String
revoke = "REVOCATION"

abbrev pub pending : String
pending = "PENDING"

abbrev pub anchored : String
anchored = "ANCHORED"

abbrev pub failed : String
failed = "FAILED"

abbrev pub revoke_failed : String
revoke_failed = "REVOKE_FAILED"

abbrev pub revoke_enqueue_failed : String
revoke_enqueue_failed = "REVOKE_ENQUEUE_FAILED"

pub record Store : Type 0 where
  pub credentials : List Credential
  pub anchor_logs : List AnchorLog

-- The `input` of `persistLifecycleLog`; what a caller leaves out is null, and 0 attempts.
pub record LogInput : Type 0 where
  pub operation : String
  pub status : String
  pub tx_hash : Option String
  pub chain_id : Option ℕ
  pub block_number : Option ℕ
  pub attempts : ℕ
  pub error_message : Option String

abbrev pub log_input : String → String → LogInput
log_input operation status = record {
  operation = operation;
  status = status;
  tx_hash = none;
  chain_id = none;
  block_number = none;
  attempts = 0;
  error_message = none;
}

abbrev pub log_row : String → LogInput → AnchorLog
log_row id input = record {
  credential_id = id;
  operation = input.operation;
  status = input.status;
  tx_hash = input.tx_hash;
  chain_id = input.chain_id;
  block_number = input.block_number;
  attempts = input.attempts;
  error_message = input.error_message;
}

-- `persistLifecycleLog`: append-only.
unfoldable pub persist_lifecycle_log : String → LogInput → Store → Store
persist_lifecycle_log id input s = record s { anchor_logs = s.anchor_logs ++ log_row id input ∷ [] }

unfoldable pub has_id : String → Credential → Bool
has_id id c = c.id === id

-- `credential.update({ where: { id } })`
unfoldable pub update_credential : String → (Credential → Credential) → Store → Store
update_credential id f s = record s { credentials = update_where (has_id id) f s.credentials }
