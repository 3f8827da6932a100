-- ===== src/Audit/Chain.antt =====
-- `verifyAuditChainRows`, `writeEntry`, `log` and `verifyChain` of
-- apps/api/src/modules/audit/audit-log.service.ts. A reason is a constructor with the numbers that its
-- message shows. The advisory lock makes writers take turns: a history is a sequence of writes.
use certiva.Prelude.{
  ℕ, ◌+◌, ◌-◌, Bool, true, false, not, ◌&&◌, String, Option, none, some, List, [], ◌∷◌, ◌++◌, ◌==◌,
  if◌then◌else◌, filter_by, length, is_some, eq_some, or_else, or_try,
}
use certiva.Audit.{Builtins, Json, Entry, compute_entry_hash}

pub record ChainRow : Type 0 where
  pub entry : Entry
  pub seq : ℕ
  pub entry_hash : Option String

pub record ChainHead : Type 0 where
  pub seq : ℕ
  pub entry_hash : String

pub data Reason : Type 0 where
  cleared : ℕ → Reason
  seq_gap : ℕ → ℕ → Reason
  prev_mismatch altered no_chained_row : Reason
  removed_from_end : ℕ → ℕ → Reason

pub record ChainVerdict : Type 0 where
  pub valid : Bool
  pub checked : ℕ
  pub total_rows : ℕ
  pub unchained : ℕ
  pub broken_at_seq : Option ℕ
  pub reason : Option Reason

-- Where and why a check fails.
abbrev pub Failure : Type 0
Failure = ℕ × Reason

unfoldable pub chained : List ChainRow → List ChainRow
chained rows = filter_by (λ r. is_some r.entry_hash) rows

abbrev pub last_of : List ChainRow → Option ChainRow
last_of [] = none
last_of (r ∷ rest) = some (or_else (last_of rest) r)

-- The first row whose seq is not one more than that of the row before.
abbrev pub gap_after : ℕ → List ChainRow → Option Failure
gap_after n [] = none
gap_after n (r ∷ rest) =
    if r.seq == n + 1 then gap_after r.seq rest else some (r.seq, seq_gap (n + 1) r.seq)

abbrev pub find_gap : List ChainRow → Option Failure
find_gap [] = none
find_gap (r ∷ rest) = gap_after r.seq rest

abbrev pub same_hash : Option String → Option String → Bool
same_hash none none = true
same_hash none (some h) = false
same_hash (some g) o = eq_some o g

-- The loop over the chained rows, with `prevHash`.
abbrev pub find_break : Builtins → Option String → List ChainRow → Option Failure
find_break b prev [] = none
find_break b prev (r ∷ rest) =
    if not (same_hash r.entry.prev_hash prev)
    then some (r.seq, prev_mismatch)
    else if not (eq_some r.entry_hash (compute_entry_hash b r.entry))
    then some (r.seq, altered)
    else find_break b r.entry_hash rest

-- The stored head against the last chained row.
abbrev pub find_end : Option ChainHead → Option ChainRow → Option Failure
find_end none last = none
find_end (some h) none = some (h.seq, no_chained_row)
find_end (some h) (some r) =
    if r.seq == h.seq && eq_some r.entry_hash h.entry_hash
    then none
    else some (r.seq, removed_from_end r.seq h.seq)

abbrev pub find_failure : Builtins → List ChainRow → Option ChainHead → Option Failure
find_failure b [] none = none
find_failure b [] (some h) = some (h.seq, cleared h.seq)
find_failure b (r ∷ rest) head =
    or_try (find_gap (r ∷ rest)) (
      or_try (find_break b none (chained (r ∷ rest)))
        (find_end head (last_of (chained (r ∷ rest)))))

abbrev pub seq_of : Option Failure → Option ℕ
seq_of none = none
seq_of (some f) = some f.0

abbrev pub reason_of : Option Failure → Option Reason
reason_of none = none
reason_of (some f) = some f.1

-- `verifyAuditChainRows`
unfoldable pub verify_audit_chain_rows : Builtins → List ChainRow → Option ChainHead → ChainVerdict
unfolding chained
verify_audit_chain_rows b rows head =
    let failure = find_failure b rows head in
    record {
      valid = not (is_some failure);
      checked = length (chained rows);
      total_rows = length rows;
      unchained = length rows - length (chained rows);
      broken_at_seq = seq_of failure;
      reason = reason_of failure;
    }

-- The tables AuditLog, in the order of seq, and AuditChainHead, with the counter of the
-- autoincrement.
pub record AuditDb : Type 0 where
  pub rows : List ChainRow
  pub head : Option ChainHead
  pub next_seq : ℕ

-- AuditEventInput with its context.
pub record AuditEventInput : Type 0 where
  pub action : String
  pub actor_admin_id : Option String
  pub actor_username : Option String
  pub target_type : Option String
  pub target_id : Option String
  pub metadata : Option Json
  pub ip_address : Option String
  pub user_agent : Option String

abbrev pub entry_of : ℕ → AuditEventInput → Option String → Entry
entry_of now input prev = record {
  action = input.action;
  actor_admin_id = input.actor_admin_id;
  actor_username = input.actor_username;
  target_type = input.target_type;
  target_id = input.target_id;
  metadata = input.metadata;
  ip_address = input.ip_address;
  user_agent = input.user_agent;
  created_at = now;
  prev_hash = prev;
}

abbrev pub hash_of : Option ChainRow → Option String
hash_of none = none
hash_of (some r) = r.entry_hash

-- The row that `writeEntry` creates.
unfoldable pub next_row : Builtins → ℕ → AuditEventInput → AuditDb → ChainRow
next_row b now input db =
    let entry = entry_of now input (hash_of (last_of (chained db.rows))) in
    record { entry = entry; seq = db.next_seq; entry_hash = some (compute_entry_hash b entry) }

-- `writeEntry`: the row and the head move in one transaction.
unfoldable pub write_entry : Builtins → ℕ → AuditEventInput → AuditDb → AuditDb
unfolding next_row
write_entry b now input db =
    let row = next_row b now input db in
    record {
      rows = db.rows ++ row ∷ [];
      head = some (record { seq = row.seq; entry_hash = compute_entry_hash b row.entry });
      next_seq = db.next_seq + 1;
    }

-- How the transaction of a write ends: it commits, it fails before its row is inserted, or it is rolled
-- back after that, when the sequence has given a value.
pub data Ending : Type 0 where
  committed refused rolled_back : Ending

-- `log` without a caller's transaction: a failure is swallowed, and the seq value of a row that was
-- rolled back is spent.
unfoldable pub log : Builtins → Ending → ℕ → AuditEventInput → AuditDb → AuditDb
log b committed now input db = write_entry b now input db
log b refused now input db = db
log b rolled_back now input db = record db { next_seq = db.next_seq + 1 }

-- `verifyChain`
unfoldable pub verify_chain : Builtins → AuditDb → ChainVerdict
verify_chain b db = verify_audit_chain_rows b db.rows db.head
