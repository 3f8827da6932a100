-- ===== src/Audit/Intact.antt =====
-- What the verdict of `verifyAuditChainRows` in apps/api/src/modules/audit/audit-log.service.ts means.
use certiva.Prelude.{
  ℕ, ◌+◌, true, not, ◌≡◌, ◌↔◌, refl, String, Option, none, some, List, [], ◌∷◌, is_some, eq_some,
  or_else, or_try, arith, eq_iff,
}
use certiva.Audit.{Builtins, compute_entry_hash}
use certiva.Audit.Chain.{
  ChainRow, ChainHead, chained, last_of, gap_after, find_gap, same_hash, find_break, find_end,
  find_failure, verify_audit_chain_rows,
}

-- No number is missing after `n`.
abbrev pub Consecutive : ℕ → List ChainRow → Type 0
Consecutive n [] = Unit {0}
Consecutive n (r ∷ rest) = (r.seq ≡ n + 1) × Consecutive r.seq rest

abbrev pub HasNoGap : List ChainRow → Type 0
HasNoGap [] = Unit {0}
HasNoGap (r ∷ rest) = Consecutive r.seq rest

-- Every row names the hash of the row before and carries its own.
abbrev pub Linked : Builtins → Option String → List ChainRow → Type 0
Linked b prev [] = Unit {0}
Linked b prev (r ∷ rest) =
    (r.entry.prev_hash ≡ prev)
    × (r.entry_hash ≡ some (compute_entry_hash b r.entry))
    × Linked b r.entry_hash rest

-- A stored head is the last chained row.
abbrev pub EndsAt : Option ChainHead → List ChainRow → Type 0
EndsAt none rows = Unit {0}
EndsAt (some h) rows =
    (r : ChainRow) × (last_of rows ≡ some r) × (r.seq ≡ h.seq) × (r.entry_hash ≡ some h.entry_hash)

-- A table of the audit log and its head.
pub record IsIntact (b : Builtins) (rows : List ChainRow) (head : Option ChainHead) : Type 0 where
  pub gapless : HasNoGap rows
  pub linked : Linked b none (chained rows)
  pub ended : EndsAt head (chained rows)

eq_some_iff : (o : Option String) (t : String) → (eq_some o t ≡ true) ↔ (o ≡ some t)
eq_some_iff none t = ground arith
eq_some_iff (some s) t = ground (arith, eq_iff s t)

same_hash_iff : (o p : Option String) → (same_hash o p ≡ true) ↔ (o ≡ p)
same_hash_iff none none = ground arith
same_hash_iff none (some h) = ground arith
same_hash_iff (some g) none = ground arith
same_hash_iff (some g) (some h) = ground (arith, eq_iff h g)

gap_after_iff : (n : ℕ) (rows : List ChainRow) → (gap_after n rows ≡ none) ↔ Consecutive n rows
gap_after_iff n [] = (λ e. tt, λ u. refl)
gap_after_iff n (r ∷ rest) =
    let (to, from) = gap_after_iff r.seq rest in
    (λ e. (ground (arith, e), to (ground (arith, e))), λ (s, c). ground (arith, s, from c))

find_gap_iff : (rows : List ChainRow) → (find_gap rows ≡ none) ↔ HasNoGap rows
find_gap_iff [] = (λ e. tt, λ u. refl)
find_gap_iff (r ∷ rest) = gap_after_iff r.seq rest

find_break_iff :
    (b : Builtins) (prev : Option String) (rows : List ChainRow)
    → (find_break b prev rows ≡ none) ↔ Linked b prev rows
find_break_iff b prev [] = (λ e. tt, λ u. refl)
find_break_iff b prev (r ∷ rest) =
    let (to, from) = find_break_iff b r.entry_hash rest in
    let (same, same') = same_hash_iff r.entry.prev_hash prev in
    let (own, own') = eq_some_iff r.entry_hash (compute_entry_hash b r.entry) in
    (
      λ e. (same (ground (arith, e)), own (ground (arith, e)), to (ground (arith, e))),
      λ (s, h, l). ground (arith, same' s, own' h, from l),
    )

find_end_iff :
    (head : Option ChainHead) (rows : List ChainRow)
    → (find_end head (last_of rows) ≡ none) ↔ EndsAt head rows
find_end_iff none rows = (λ e. tt, λ u. refl)
find_end_iff (some h) [] = (λ e. cc, λ (r, e, _, _). cc)
find_end_iff (some h) (r ∷ rest) =
    let last = or_else (last_of rest) r in
    let (own, own') = eq_some_iff last.entry_hash h.entry_hash in
    (
      λ e. (last, refl, ground (arith, e), own (ground (arith, e))),
      λ (l, e, s, g). ground (arith, e, s, g, own'),
    )

no_failure_iff : {A : Type 0} (o p : Option A) → (or_try o p ≡ none) ↔ ((o ≡ none) × (p ≡ none))
no_failure_iff none p = (λ e. (refl, e), λ (_, e). e)
no_failure_iff (some a) p = (λ e. cc, λ (e, _). cc)

find_failure_iff :
    (b : Builtins) (rows : List ChainRow) (head : Option ChainHead)
    → (find_failure b rows head ≡ none) ↔ IsIntact b rows head
unfolding chained
find_failure_iff b [] none = (λ e. record { gapless = tt; linked = tt; ended = tt }, λ i. refl)
find_failure_iff b [] (some h) = (λ e. cc, λ i. let (r, e, _, _) = i.ended in cc)
find_failure_iff b (r ∷ rest) head =
    let rows = r ∷ rest in
    let (to, from) =
      no_failure_iff (find_gap rows)
        (or_try (find_break b none (chained rows)) (find_end head (last_of (chained rows)))) in
    let (to', from') =
      no_failure_iff (find_break b none (chained rows)) (find_end head (last_of (chained rows))) in
    (
      λ e. record {
        gapless = (find_gap_iff rows).0 (to e).0;
        linked = (find_break_iff b none (chained rows)).0 (to' (to e).1).0;
        ended = (find_end_iff head (chained rows)).0 (to' (to e).1).1;
      },
      λ i. from (
        (find_gap_iff rows).1 i.gapless,
        from' (
          (find_break_iff b none (chained rows)).1 i.linked,
          (find_end_iff head (chained rows)).1 i.ended,
        ),
      ),
    )

is_none_iff : {A : Type 0} (o : Option A) → (not (is_some o) ≡ true) ↔ (o ≡ none)
is_none_iff none = (λ e. refl, λ e. refl)
is_none_iff (some a) = (λ e. cc, λ e. cc)

-- The verdict is valid exactly for an intact table: no number missing between any two rows, every
-- chained row naming the hash of the chained row before (none for the first) and carrying the hash
-- of its own content, and the last of them being the stored head, if there is one.
pub verify_iff :
    (b : Builtins) (rows : List ChainRow) (head : Option ChainHead)
    → ((verify_audit_chain_rows b rows head).valid ≡ true) ↔ IsIntact b rows head
unfolding verify_audit_chain_rows
verify_iff b rows head =
    let (to, from) = find_failure_iff b rows head in
    let (is, is') = is_none_iff (find_failure b rows head) in (λ e. to (is e), λ i. is' (from i))
