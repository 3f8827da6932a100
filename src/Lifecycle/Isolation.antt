-- ===== src/Lifecycle/Isolation.antt =====
-- `bulkRevoke` and `bulkDelete` of apps/api/src/modules/credential/credential.service.ts, whose ids
-- come from the caller, touch no credential of another institution.
use certiva.Prelude.{
  ℕ, ◌+◌, Bool, true, false, not, ◌||◌, ◌≡◌, refl, sym, ap, subst, ◌∙◌, inl, inr, String, Option,
  none, some, List, [], ◌∷◌, Result, ok, err, ◌===◌, Bool-cases, find_first, filter_by, All-imp,
  is_some, arith, eq_iff,
}
use certiva.Anchoring
use certiva.Registry.{Credential}
use certiva.Auth.{JwtPayload}
use certiva.Anchoring.{has_id, revoke, persist_lifecycle_log}
use certiva.Anchoring.Queue.{Producer}
use certiva.Lifecycle.{
  Attempt, returns, Registrar, M, Tools, rows, update_credential, log, resolve_id,
}
use certiva.Lifecycle.Rows.{IsSound}
use certiva.Lifecycle.Rows.Update.{found-only}
use certiva.Lifecycle.Growth.{resolve_id-Passes}
use certiva.Lifecycle.Revoke.{
  RevokeCredentialDto, Round, Tally, run_rounds, zero_tally, snapshot_row, revoked_row,
  revoke_in_bulk, bulk_revoke_round, bulk_revoke,
}
use certiva.Lifecycle.Revoking.{revoked-Kept}
use certiva.Lifecycle.Delete.{deleted_row, delete_in_bulk, bulk_delete_round, bulk_delete}
use certiva.Lifecycle.Deleting.{deleted-Kept}
use certiva.Lifecycle.Rows.Within.{
  foreign, Owned, Within, Within-refl, Within-trans, update-Within, revoke_or_mark-Within,
}

-- The row found by its id belongs to the institution: so does every row with that id.
found-Owned :
    (i id : String) (c : Credential) (xs : List Credential)
    → IsSound xs
    → find_first (has_id id) xs ≡ some c
    → c.issuer.id ≡ i
    → Owned i id xs
found-Owned i id c xs h e own =
    All-imp (λ d. has_id id d ≡ true → d ≡ c) _ xs
      (λ d f t. ap (λ (x : Credential). x.issuer.id) (f t) ∙ own) (found-only id c xs h.pairwise e)

own_if_chosen : (i j : String) (b : Bool) → (not (j === i) || b) ≡ false → j ≡ i
own_if_chosen i j b h = (eq_iff j i).0 (is_true (j === i) b h)
  where
    is_true : (a b : Bool) → (not a || b) ≡ false → a ≡ true
    is_true a b h = ground arith

module _ (t : Tools) (admin : JwtPayload) (i id : String) (s : Registrar) where
  revoke_in_bulk-Within :
      (dto : RevokeCredentialDto) (r : Result (Unit {0}))
      → t.commits ≡ r
      → Owned i id (rows s)
      → Within i (rows s) (rows (revoke_in_bulk t admin dto id s).1)
  unfolding revoke_in_bulk update_credential Anchoring.update_credential log
  revoke_in_bulk-Within dto (err m) e o = rw e (Within-refl i (rows s))
  revoke_in_bulk-Within dto (ok u) e o =
      let w =
        update-Within i id (revoked_row t.now admin dto) (revoked-Kept t.now admin dto) (rows s)
          o in
      rw e (Within-trans i (rows s) _ _ w (revoke_or_mark-Within t.add i id _ (w.owned id o)))

  delete_in_bulk-Within :
      (r : Result (Unit {0}))
      → t.commits ≡ r
      → Owned i id (rows s)
      → Within i (rows s) (rows (delete_in_bulk t admin id s).1)
  unfolding delete_in_bulk update_credential Anchoring.update_credential log
  delete_in_bulk-Within (err m) e o = rw e (Within-refl i (rows s))
  delete_in_bulk-Within (ok u) e o =
      rw e (update-Within i id (deleted_row t.now admin) (deleted-Kept t.now admin) (rows s) o)

  -- A round of a loop that read the table in the state `u`.
  module _ (u : Registrar) (h : IsSound (rows u)) (w : Within i (rows u) (rows s)) where
    revoke_round-Within :
        (dto : RevokeCredentialDto) (o : Option Credential)
        → find_first (has_id id) (rows u) ≡ o
        → Within i (rows s) (rows (bulk_revoke_round t admin dto i id o s).1)
    unfolding bulk_revoke_round
    revoke_round-Within dto none e = Within-refl i (rows s)
    revoke_round-Within dto (some c) e = elim (Bool-cases (not (c.issuer.id === i) || c.revoked)) [
      | inl t' ↦ simp t' (Within-refl i (rows s))
      | inr n ↦ simp n (
          revoke_in_bulk-Within dto t.commits refl (
            w.owned id (found-Owned i id c (rows u) h e (own_if_chosen i c.issuer.id c.revoked n))))
    ]

    delete_round-Within :
        (o : Option Credential)
        → find_first (has_id id) (rows u) ≡ o
        → Within i (rows s) (rows (bulk_delete_round t admin i id o s).1)
    unfolding bulk_delete_round
    delete_round-Within none e = Within-refl i (rows s)
    delete_round-Within (some c) e =
        elim (Bool-cases (not (c.issuer.id === i) || (not c.revoked || is_some c.deleted_at))) [
          | inl t' ↦ simp t' (Within-refl i (rows s))
          | inr n ↦ simp n (
              delete_in_bulk-Within t.commits refl
                (w.owned id (found-Owned i id c (rows u) h e (own_if_chosen i c.issuer.id _ n))))
        ]

rounds-Within :
    (i : String) (body : ℕ → String → M Round) (k : ℕ) (ids : List String) (n : Tally)
    (u s : Registrar)
    → ((k : ℕ) (id : String) (v : Registrar)
        → Within i (rows u) (rows v)
        → Within i (rows v) (rows (body k id v).1))
    → Within i (rows u) (rows s)
    → Within i (rows u) (rows (run_rounds body k ids n s).1)
rounds-Within i body k [] n u s step w = w
rounds-Within i body k (id ∷ ids) n u s step w =
    rounds-Within i body (k + 1) ids _ u (body k id s).1 step
      (Within-trans i (rows u) (rows s) _ w (step k id s w))

-- A bulk revocation and a bulk deletion by an account leave every credential of other institutions
-- as it was, whatever ids are asked for, whatever role the account has, and whichever rounds fail:
-- in a sound registry, when the account's institution resolves to `i`, the rows whose issuer is not
-- `i` are the same before and after.
pub bulk_isolated :
    (t : ℕ → Tools) (admin : JwtPayload) (ids : List String) (dto : RevokeCredentialDto)
    (s u : Registrar) (i : String)
    → IsSound (rows s)
    → resolve_id (t 0).setting admin s ≡ (returns i, u)
    → (filter_by (foreign i) (rows (bulk_revoke t admin ids dto s).1)
        ≡ filter_by (foreign i) (rows s))
      × (filter_by (foreign i) (rows (bulk_delete t admin ids s).1)
          ≡ filter_by (foreign i) (rows s))
unfolding bulk_revoke bulk_delete snapshot_row
bulk_isolated t admin ids dto s u i h e =
    let passed = (resolve_id-Passes (t 0).setting admin s).same_producer in
    let same : rows u ≡ rows s =
      ap (λ (r : Attempt String × Registrar). rows r.1) (sym e)
      ∙ ap (λ (q : Producer). q.store.credentials) passed in
    let sound = subst IsSound (sym same) h in
    let start = Within-refl i (rows u) in
    let first = ap (filter_by (foreign i)) same in
    rw e (
      (rounds-Within i _ 0 ids zero_tally u u
            (λ k id v w. revoke_round-Within (t k) admin i id v u sound w dto _ refl) start).others
          ∙ first,
      (rounds-Within i _ 0 ids zero_tally u u
            (λ k id v w. delete_round-Within (t k) admin i id v u sound w _ refl) start).others
          ∙ first,
    )
