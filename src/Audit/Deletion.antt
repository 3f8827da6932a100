-- ===== src/Audit/Deletion.antt =====
-- Rows taken out of a written audit log: the verdict of `verifyChain` in
-- apps/api/src/modules/audit/audit-log.service.ts, with the stored head as it was.
use certiva.Prelude.{
  ℕ, ◌+◌, ◌-◌, false, ◌≡◌, refl, sym, subst, ◌∙◌, String, Option, none, some, List, [], ◌∷◌, ◌++◌,
  length, length-append, arith, Bool-cases, inl, inr,
}
use Prim.{absurd}
use certiva.Audit.{Builtins, compute_entry_hash}
use certiva.Audit.Chain.{
  ChainRow, ChainHead, chained, last_of, verify_audit_chain_rows, AuditEventInput,
}
use certiva.Audit.Intact.{Consecutive, Linked, EndsAt, IsIntact, verify_iff}
use certiva.Audit.History.{Runs, head_at, all_chained, count, writes, empty_log, history-IsWritten}

plus_zero : (n : ℕ) → n + 0 ≡ n
plus_zero n = omega arith

pub last_seq :
    (n : ℕ) (x r : ChainRow) (rest : List ChainRow)
    → x.seq ≡ n
    → Consecutive n rest
    → last_of (x ∷ rest) ≡ some r
    → r.seq ≡ n + length rest
last_seq n x r [] s c l = cc (s, l, plus_zero n)
last_seq n x r (y ∷ rest) s (t, c) l = omega (arith, t, last_seq y.seq y r rest refl c l)

module _ (b : Builtins) where
  split :
      (n : ℕ) (h : Option String) (xs zs : List ChainRow) (m : ℕ) (k : Option String)
      → Runs b n h (xs ++ zs) m k
      → (i : ℕ) × (g : Option String) × Runs b n h xs i g × Runs b i g zs m k
  split n h [] zs m k run = (n, h, (refl, refl), run)
  split n h (x ∷ xs) zs m k (s, p, own, run) =
      let (i, g, before, after) = split (n + 1) x.entry_hash xs zs m k run in
      (i, g, (s, p, own, before), after)

  chained-append :
      (n : ℕ) (h : Option String) (xs zs : List ChainRow) (m : ℕ) (k : Option String)
      → Runs b n h xs m k
      → chained zs ≡ zs
      → chained (xs ++ zs) ≡ xs ++ zs
  unfolding chained
  chained-append n h [] zs m k run e = e
  chained-append n h (x ∷ xs) zs m k (_, _, own, run) e =
      rw (own, chained-append (n + 1) x.entry_hash xs zs m k run e) refl

  run_hash :
      (n : ℕ) (h : Option String) (x : ChainRow) (rest : List ChainRow) (m : ℕ) (k : Option String)
      → Runs b n h (x ∷ rest) m k
      → (g : String) × (k ≡ some g)
  run_hash n h x [] m k (_, _, own, (_, f)) = (compute_entry_hash b x.entry, sym f ∙ own)
  run_hash n h x (y ∷ rest) m k (_, _, _, run) = run_hash (n + 1) x.entry_hash y rest m k run

  -- Without the first row, the new first row names a hash.
  front_taken :
      (i : ℕ) (g : String) (y : ChainRow) (rest : List ChainRow) (m : ℕ) (k : Option String)
      (head : Option ChainHead)
      → Runs b i (some g) (y ∷ rest) m k
      → ¬ IsIntact b (y ∷ rest) head
  front_taken i g y rest m k head run intact =
      let all = all_chained b i (some g) (y ∷ rest) m k run in
      let (first, _, _) : Linked b none (y ∷ rest) = subst (Linked b none) all intact.linked in
      cc (run.1, first)

  -- Behind a first row that stays, the last row has a number that is too small.
  short :
      (n : ℕ) (x : ChainRow) (rest : List ChainRow) (i : ℕ) (k : String)
      → x.seq ≡ n
      → chained (x ∷ rest) ≡ x ∷ rest
      → IsIntact b (x ∷ rest) (some (record { seq = i; entry_hash = k }))
      → i ≡ n + length rest
  short n x rest i k s all intact =
      let (r, l, e, _) : EndsAt (some (record { seq = i; entry_hash = k })) (x ∷ rest) =
        subst (EndsAt (some (record { seq = i; entry_hash = k }))) all intact.ended in
      sym e ∙ last_seq n x r rest s (subst (λ j. Consecutive j rest) s intact.gapless) l

  taken :
      (n : ℕ) (xs : List ChainRow) (d : ChainRow) (ds ys : List ChainRow) (m : ℕ)
      (k : Option String)
      → Runs b n none (xs ++ ((d ∷ ds) ++ ys)) m k
      → ¬ IsIntact b (xs ++ ys) (head_at m k)
  taken n [] d ds [] m k run intact =
      let (g, e) = run_hash n none d (ds ++ []) m k run in
      let (r, l, _, _) : EndsAt (head_at m (some g)) [] =
        subst (λ h. EndsAt (head_at m h) []) e (unfold chained in intact.ended) in
      cc l
  taken n [] d ds (y ∷ ys) m k run intact =
      let (i, h, before, after) = split n none (d ∷ ds) (y ∷ ys) m k run in
      let (g, e) = run_hash n none d ds i h before in
      front_taken i g y ys m k (head_at m k) (subst (λ o. Runs b i o (y ∷ ys) m k) e after) intact
  taken n (x ∷ xs) d ds ys m k run intact =
      let (i, h, before, after) = split n none (x ∷ xs) ((d ∷ ds) ++ ys) m k run in
      let (j, h', middle, end) = split i h (d ∷ ds) ys m k after in
      let (g, e) = run_hash n none x (xs ++ ((d ∷ ds) ++ ys)) m k run in
      let all = chained-append n none (x ∷ xs) ys i h before (all_chained b j h' ys m k end) in
      let size =
        short n x (xs ++ ys) (m - 1) g run.0 all
          (subst (λ o. IsIntact b (x ∷ xs ++ ys) (head_at m o)) e intact) in
      omega (
        arith,
        size,
        count b n none (x ∷ xs) i h before,
        count b i h (d ∷ ds) j h' middle,
        count b j h' ys m k end,
        length-append xs ys,
      )

-- No row can be taken out unseen: whatever was written from the empty log on, the log without any
-- stretch of one row or more, at the front, in the middle, at the end or the whole of it, is not
-- valid against the stored head.
pub deletion_detected :
    (b : Builtins) (events : List (ℕ × AuditEventInput)) (xs : List ChainRow) (d : ChainRow)
    (ds ys : List ChainRow)
    → (writes b events empty_log).rows ≡ xs ++ ((d ∷ ds) ++ ys)
    → (verify_audit_chain_rows b (xs ++ ys) (writes b events empty_log).head).valid ≡ false
deletion_detected b events xs d ds ys e =
    let db = writes b events empty_log in
    let w = history-IsWritten b events in
    elim (Bool-cases (verify_audit_chain_rows b (xs ++ ys) db.head).valid) [
      | inl t ↦ absurd (
          taken b 1 xs d ds ys db.next_seq w.last_hash
            (subst (λ rows. Runs b 1 none rows db.next_seq w.last_hash) e w.runs)
            (subst (IsIntact b (xs ++ ys)) w.ended ((verify_iff b (xs ++ ys) db.head).0 t)))
      | inr f ↦ f
    ]
