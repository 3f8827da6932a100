-- ===== src/Audit/History.antt =====
-- The audit log that `writeEntry` of apps/api/src/modules/audit/audit-log.service.ts writes: it
-- verifies, and it does not once rows are taken out of it.
use certiva.Prelude.{
  ℕ, ◌+◌, ◌-◌, true, ◌≡◌, refl, sym, ap, subst, ◌∙◌, String, Option, none, some, List, [], ◌∷◌,
  ◌++◌, length, or_else, arith,
}
use certiva.Audit.{Builtins, compute_entry_hash}
use certiva.Audit.Chain.{
  ChainRow, ChainHead, chained, last_of, AuditDb, AuditEventInput, hash_of, next_row, write_entry,
  verify_chain,
}
use certiva.Audit.Intact.{HasNoGap, Consecutive, Linked, EndsAt, IsIntact, verify_iff}

-- The rows run from number `n` and hash `h` up to, not including, number `m`, with hash `k` last.
abbrev pub Runs : Builtins → ℕ → Option String → List ChainRow → ℕ → Option String → Type 0
Runs b n h [] m k = (n ≡ m) × (h ≡ k)
Runs b n h (r ∷ rest) m k =
    (r.seq ≡ n)
    × (r.entry.prev_hash ≡ h)
    × (r.entry_hash ≡ some (compute_entry_hash b r.entry))
    × Runs b (n + 1) r.entry_hash rest m k

-- The head that belongs to the last row.
abbrev pub head_at : ℕ → Option String → Option ChainHead
head_at m none = none
head_at m (some k) = some (record { seq = m - 1; entry_hash = k })

-- A table that was written by `writeEntry` alone, from the number `first` on.
pub record IsWritten (b : Builtins) (first : ℕ) (db : AuditDb) : Type 0 where
  pub last_hash : Option String
  pub runs : Runs b first none db.rows db.next_seq last_hash
  pub ended : db.head ≡ head_at db.next_seq last_hash

module _ (b : Builtins) where
  Runs-append :
      (n : ℕ) (h : Option String) (rows : List ChainRow) (m : ℕ) (k : Option String) (r : ChainRow)
      → Runs b n h rows m k
      → r.seq ≡ m
      → r.entry.prev_hash ≡ k
      → r.entry_hash ≡ some (compute_entry_hash b r.entry)
      → Runs b n h (rows ++ r ∷ []) (m + 1) r.entry_hash
  Runs-append n h [] m k r (e, f) s p own = (s ∙ sym e, p ∙ sym f, own, (ap (λ x. x + 1) e, refl))
  Runs-append n h (x ∷ rest) m k r (s', p', o', run) s p own =
      (s', p', o', Runs-append (n + 1) x.entry_hash rest m k r run s p own)

  pub all_chained :
      (n : ℕ) (h : Option String) (rows : List ChainRow) (m : ℕ) (k : Option String)
      → Runs b n h rows m k
      → chained rows ≡ rows
  unfolding chained
  all_chained n h [] m k run = refl
  all_chained n h (x ∷ rest) m k (_, _, own, run) =
      rw (own, all_chained (n + 1) x.entry_hash rest m k run) refl

  pub count :
      (n : ℕ) (h : Option String) (rows : List ChainRow) (m : ℕ) (k : Option String)
      → Runs b n h rows m k
      → n + length rows ≡ m
  count n h [] m k (e, _) = omega (arith, e)
  count n h (x ∷ rest) m k (_, _, _, run) = omega (arith, count (n + 1) x.entry_hash rest m k run)

  -- The last row of a run that is not empty.
  run_end :
      (n : ℕ) (h : Option String) (x : ChainRow) (rest : List ChainRow) (m : ℕ) (k : Option String)
      → Runs b n h (x ∷ rest) m k
      → (r : ChainRow) × (last_of (x ∷ rest) ≡ some r) × (r.seq + 1 ≡ m) × (r.entry_hash ≡ k)
  run_end n h x [] m k (s, _, _, (e, f)) = (x, refl, ap (λ y. y + 1) s ∙ e, f)
  run_end n h x (y ∷ rest) m k (s, _, _, run) =
      let (r, l, e, f) = run_end (n + 1) x.entry_hash y rest m k run in
      (r, ap (λ o. some (or_else o x)) l, e, f)

  run_last :
      (n : ℕ) (rows : List ChainRow) (m : ℕ) (k : Option String)
      → Runs b n none rows m k
      → hash_of (last_of rows) ≡ k
  run_last n [] m k (_, f) = f
  run_last n (x ∷ rest) m k run = let (r, l, _, f) = run_end n none x rest m k run in rw l f

  Runs-Linked :
      (n : ℕ) (h : Option String) (rows : List ChainRow) (m : ℕ) (k : Option String)
      → Runs b n h rows m k
      → Linked b h rows
  Runs-Linked n h [] m k run = tt
  Runs-Linked n h (x ∷ rest) m k (_, p, own, run) =
      (p, own, Runs-Linked (n + 1) x.entry_hash rest m k run)

  Runs-Consecutive :
      (n : ℕ) (h : Option String) (rows : List ChainRow) (m : ℕ) (k : Option String)
      → Runs b (n + 1) h rows m k
      → Consecutive n rows
  Runs-Consecutive n h [] m k run = tt
  Runs-Consecutive n h (x ∷ rest) m k (s, _, _, run) = (
    s,
    subst (λ i. Consecutive i rest) (sym s) (Runs-Consecutive (n + 1) x.entry_hash rest m k run),
  )

  Runs-HasNoGap :
      (n : ℕ) (h : Option String) (rows : List ChainRow) (m : ℕ) (k : Option String)
      → Runs b n h rows m k
      → HasNoGap rows
  Runs-HasNoGap n h [] m k run = tt
  Runs-HasNoGap n h (x ∷ rest) m k (s, _, _, run) =
      subst (λ i. Consecutive i rest) (sym s) (Runs-Consecutive n x.entry_hash rest m k run)

  Runs-EndsAt :
      (n : ℕ) (rows : List ChainRow) (m : ℕ) (k : Option String)
      → Runs b n none rows m k
      → EndsAt (head_at m k) rows
  Runs-EndsAt n rows m none run = tt
  Runs-EndsAt n [] m (some k) (_, f) = cc
  Runs-EndsAt n (x ∷ rest) m (some k) run =
      let (r, l, s, f) = run_end n none x rest m (some k) run in (r, l, omega (arith, s), f)

  written-IsIntact : (first : ℕ) (db : AuditDb) → IsWritten b first db → IsIntact b db.rows db.head
  written-IsIntact first db w =
      let all = all_chained first none db.rows db.next_seq w.last_hash w.runs in
      record {
        gapless = Runs-HasNoGap first none db.rows db.next_seq w.last_hash w.runs;
        linked = rw all (Runs-Linked first none db.rows db.next_seq w.last_hash w.runs);
        ended = rw (all, w.ended) (Runs-EndsAt first db.rows db.next_seq w.last_hash w.runs);
      }

  write_entry-IsWritten :
      (first now : ℕ) (input : AuditEventInput) (db : AuditDb)
      → IsWritten b first db
      → IsWritten b first (write_entry b now input db)
  unfolding write_entry next_row
  write_entry-IsWritten first now input db w =
      let all = all_chained first none db.rows db.next_seq w.last_hash w.runs in
      record {
        last_hash = (next_row b now input db).entry_hash;
        runs =
            Runs-append first none db.rows db.next_seq w.last_hash (next_row b now input db) w.runs
              refl (rw all (run_last first db.rows db.next_seq w.last_hash w.runs)) refl;
        ended =
            ap
              (λ i. some (record {
                seq = i;
                entry_hash = compute_entry_hash b (next_row b now input db).entry;
              }))
              (omega arith);
      }

-- The events of a history, each with its time, written one after the other.
abbrev pub writes : Builtins → List (ℕ × AuditEventInput) → AuditDb → AuditDb
writes b [] db = db
writes b (event ∷ rest) db = writes b rest (write_entry b event.0 event.1 db)

abbrev pub empty_log : AuditDb
empty_log = record { rows = []; head = none; next_seq = 1 }

pub writes-IsWritten :
    (b : Builtins) (first : ℕ) (events : List (ℕ × AuditEventInput)) (db : AuditDb)
    → IsWritten b first db
    → IsWritten b first (writes b events db)
writes-IsWritten b first [] db w = w
writes-IsWritten b first (event ∷ rest) db w =
    writes-IsWritten b first rest (write_entry b event.0 event.1 db)
      (write_entry-IsWritten b first event.0 event.1 db w)

pub history-IsWritten :
    (b : Builtins) (events : List (ℕ × AuditEventInput)) → IsWritten b 1 (writes b events empty_log)
history-IsWritten b events =
    writes-IsWritten b 1 events empty_log
      (record { last_hash = none; runs = (refl, refl); ended = refl })

-- Whatever is written, from the empty log on, the log verifies after every entry.
pub history_verifies :
    (b : Builtins) (events : List (ℕ × AuditEventInput))
    → (verify_chain b (writes b events empty_log)).valid ≡ true
unfolding verify_chain
history_verifies b events =
    let db = writes b events empty_log in
    (verify_iff b db.rows db.head).1 (written-IsIntact b 1 db (history-IsWritten b events))
