-- ===== src/Audit/Rollback.antt =====
-- A write of apps/api/src/modules/audit/audit-log.service.ts that was rolled back, and what the verdict
-- of `verifyAuditChainRows` says after it.
use Prim.{absurd}
use certiva.Prelude.{
  ℕ, ◌+◌, true, false, ◌≡◌, refl, ap, subst, inl, inr, String, Option, none, some, List, [], ◌∷◌,
  ◌++◌, length-append, or_else, arith, Bool-cases,
}
use certiva.Audit.{Builtins}
use certiva.Audit.Chain.{
  ChainRow, ChainHead, last_of, AuditDb, AuditEventInput, next_row, write_entry, rolled_back,
  committed, log, verify_chain,
}
use certiva.Audit.Intact.{Consecutive, IsIntact, verify_iff}
use certiva.Audit.History.{
  Runs, IsWritten, count, writes, empty_log, history-IsWritten, history_verifies,
}
use certiva.Audit.Deletion.{last_seq}

last_of-append : (rows : List ChainRow) (r : ChainRow) → last_of (rows ++ r ∷ []) ≡ some r
last_of-append [] r = refl
last_of-append (x ∷ rest) r = ap (λ o. some (or_else o x)) (last_of-append rest r)

gap :
    (b : Builtins) (n : ℕ) (rows : List ChainRow) (m : ℕ) (k : Option String) (r : ChainRow)
    (head : Option ChainHead)
    → Runs b n none rows m k
    → r.seq ≡ m + 1
    → IsIntact b (rows ++ r ∷ []) head
    → rows ≡ []
gap b n [] m k r head run s intact = refl
gap b n (x ∷ rest) m k r head run s intact =
    let ends =
      last_seq n x r (rest ++ r ∷ []) run.0
        (subst (λ j. Consecutive j (rest ++ r ∷ [])) run.0 intact.gapless)
        (ap (λ o. some (or_else o x)) (last_of-append rest r)) in
    absurd (omega (arith, ends, s, count b n none (x ∷ rest) m k run, length-append rest (r ∷ [])))

next_entry_invalid :
    (b : Builtins) (db : AuditDb) (now : ℕ) (next : AuditEventInput) (x : ChainRow)
    (rest : List ChainRow)
    → IsWritten b 1 db
    → db.rows ≡ x ∷ rest
    → (verify_chain b (write_entry b now next (record db { next_seq = db.next_seq + 1 }))).valid
      ≡ false
unfolding verify_chain write_entry next_row
next_entry_invalid b db now next x rest w e =
    let after = write_entry b now next (record db { next_seq = db.next_seq + 1 }) in
    elim (Bool-cases (verify_chain b after).valid) [
      | inl t ↦ cc (
        e,
        gap b 1 db.rows db.next_seq w.last_hash
            (next_row b now next (record db { next_seq = db.next_seq + 1 })) after.head w.runs refl
            ((verify_iff b after.rows after.head).0 t),
      )
      | inr f ↦ f
    ]

-- A rolled-back write is reported as if a row were missing: in a log that has an entry it leaves the
-- rows and the head as they are and the verdict valid, but it spends a number, and the next entry
-- makes the verdict invalid.
pub rollback_reported :
    (b : Builtins) (events : List (ℕ × AuditEventInput)) (now later : ℕ)
    (lost next : AuditEventInput) (x : ChainRow) (rest : List ChainRow)
    → (writes b events empty_log).rows ≡ x ∷ rest
    → let db = log b rolled_back now lost (writes b events empty_log) in
      (db.rows ≡ x ∷ rest)
      × (db.head ≡ (writes b events empty_log).head)
      × ((verify_chain b db).valid ≡ true)
      × ((verify_chain b (log b committed later next db)).valid ≡ false)
unfolding log verify_chain
rollback_reported b events now later lost next x rest e = (
  e,
  refl,
  history_verifies b events,
  next_entry_invalid b (writes b events empty_log) later next x rest (history-IsWritten b events) e,
)
