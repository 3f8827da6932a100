-- ===== src/Lifecycle/Deleting.antt =====
-- `remove` and `bulkDelete` lose no row, and mark only revoked ones as deleted.
use certiva.Prelude.{
  ℕ, Bool, true, false, not, ◌||◌, ◌≡◌, refl, sym, ap, subst, ◌∙◌, inl, inr, String, Option, none,
  some, List, ◌===◌, Bool-cases, find_first, All, is_some, arith, All-imp,
}
use certiva.Registry.{Credential}
use certiva.Auth.{JwtPayload}
use certiva.Anchoring.{has_id}
use certiva.Lifecycle.{Registrar, ◌>>◌, pure, Tools, rows, update_credential, log}
use certiva.Lifecycle.Rows.{Kept, IsOrderly, IsSound}
use certiva.Lifecycle.Rows.Update.{found-only}
use certiva.Lifecycle.Growth.{Grows, Grows-refl}
use certiva.Lifecycle.Rules.{
  found-then, check-then, call-then, access-then, resolve-then, log-then, update-then,
}
use certiva.Lifecycle.Rows.Update.{Kept-found}
use certiva.Lifecycle.Revoke.{changed, zero_tally, snapshot_row}
use certiva.Lifecycle.Revoking.{rounds-Grows}
use certiva.Lifecycle.Delete.{deleted_row, remove, delete_in_bulk, bulk_delete_round, bulk_delete}

pub deleted-Kept :
    (now : ℕ) (admin : JwtPayload) (c : Credential) → Kept c (deleted_row now admin c)
unfolding deleted_row
deleted-Kept now admin c = record {
  same = refl;
  hashes = inl (refl, refl);
  stays_revoked = λ h. h;
  stays_deleted = λ _. refl;
}

-- Every row with this id is revoked.
abbrev RevokedAt : String → List Credential → Type 0
RevokedAt id xs = All (λ c. has_id id c ≡ true → c.revoked ≡ true) xs

deleted-IsOrderly :
    (now : ℕ) (admin : JwtPayload) (id : String) (xs : List Credential)
    → RevokedAt id xs
    → All (λ c. has_id id c ≡ true → IsOrderly (deleted_row now admin c)) xs
unfolding deleted_row
deleted-IsOrderly now admin id xs h =
    All-imp (λ c. has_id id c ≡ true → c.revoked ≡ true) _ xs (λ c f t _. f t) h

-- The row found by its id is revoked: so is every row with that id, as there is only one.
found-RevokedAt :
    (id : String) (c : Credential) (xs : List Credential)
    → IsSound xs
    → find_first (has_id id) xs ≡ some c
    → c.revoked ≡ true
    → RevokedAt id xs
found-RevokedAt id c xs s e r =
    All-imp (λ d. has_id id d ≡ true → d ≡ c) _ xs
      (λ d f t. ap (λ (x : Credential). x.revoked) (f t) ∙ r) (found-only id c xs s.pairwise e)

module _ (t : Tools) (admin : JwtPayload) (id : String) where
  commit-Grows :
      (s : Registrar)
      → IsSound (rows s)
      → RevokedAt id (rows s)
      → Grows s
          ((do
            update_credential id (deleted_row t.now admin)
            log "CREDENTIAL_DELETED" admin (some id)
            pure id)
            s).1
  commit-Grows s h r =
      update-then s h id (deleted_row t.now admin) _ (deleted-Kept t.now admin)
        (deleted-IsOrderly t.now admin id (rows s) r)
        (λ u i. log-then u i "CREDENTIAL_DELETED" admin (some id) (pure id) (λ v j. Grows-refl v j))

  pub remove-Grows : (s : Registrar) → IsSound (rows s) → Grows s (remove t admin id s).1
  unfolding remove
  remove-Grows s h = found-then s h id _ (λ c found.
      access-then s h t.setting admin c.issuer.id _ (λ u i same. check-then u i c.revoked _ _ (λ r.
        check-then u i (not (is_some c.deleted_at)) _ _ (λ _.
          commit-Grows u i
            (subst (RevokedAt id) (sym same) (found-RevokedAt id c (rows s) h found r))))))

  in_bulk-Grows :
      (s : Registrar)
      → IsSound (rows s)
      → RevokedAt id (rows s)
      → Grows s (delete_in_bulk t admin id s).1
  unfolding delete_in_bulk
  in_bulk-Grows s h r = call-then s h t.commits _ (λ _.
      update-then s h id (deleted_row t.now admin) _ (deleted-Kept t.now admin)
        (deleted-IsOrderly t.now admin id (rows s) r)
        (λ u i.
          log-then u i "CREDENTIAL_DELETED" admin (some id) (pure changed) (λ v j. Grows-refl v j)))

  revoked_if_chosen : (b c d : Bool) → (b || (not c || d)) ≡ false → c ≡ true
  revoked_if_chosen b c d h = ground arith

  -- A round of the loop that read the table in the state `u`.
  round-Grows :
      (issuer_id : String) (u s : Registrar) (o : Option Credential)
      → Grows u s
      → find_first (has_id id) (rows u) ≡ o
      → Grows s (bulk_delete_round t admin issuer_id id o s).1
  unfolding bulk_delete_round
  round-Grows issuer_id u s none g e = Grows-refl s g.sound
  round-Grows issuer_id u s (some c) g e =
      let (d, found, k) = Kept-found id (rows u) (rows s) c g.registry e in
      let refused : Bool =
        not (c.issuer.id === issuer_id) || (not c.revoked || is_some c.deleted_at) in
      elim (Bool-cases refused) [
        | inl t ↦ simp t (Grows-refl s g.sound)
        | inr n ↦ simp n (
            in_bulk-Grows s g.sound (
              found-RevokedAt id d (rows s) g.sound found
                (k.stays_revoked (revoked_if_chosen _ c.revoked _ n))))
      ]

pub bulk_delete-Grows :
    (t : ℕ → Tools) (admin : JwtPayload) (ids : List String) (s : Registrar)
    → IsSound (rows s)
    → Grows s (bulk_delete t admin ids s).1
unfolding bulk_delete snapshot_row
bulk_delete-Grows t admin ids s h = resolve-then s h (t 0).setting admin _ (λ issuer_id u i.
    rounds-Grows _ 0 ids zero_tally u u
      (λ k id v g. round-Grows (t k) admin id issuer_id u v _ g refl) (Grows-refl u i))
