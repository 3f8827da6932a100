-- ===== src/Lifecycle/Final.antt =====
-- A revocation is final for the public: the life of the registry, and the verification that reads it.
use mathlib.Core.Option.{some-injective}
use certiva.Prelude.{
  ℕ, Bool, true, false, ◌≡◌, refl, ◌===◌, sym, ap, ◌∙◌, String, some, ok, find_first,
}
use certiva.Registry.{Credential, EventType}
use certiva.Anchoring.{has_id}
use certiva.Verification
use certiva.Verification.{Env, Db}
use certiva.Verification.Recording.{IsWellFormed, find_by_id}
use certiva.Verification.Reference.{
  ReferenceResponse, reference_query, resolve_credential_reference,
}
use certiva.Verification.Lookups.{reference-valid_iff}
use certiva.Lifecycle.{Registrar, rows}
use certiva.Lifecycle.Rows.{Kept, IsSound}
use certiva.Lifecycle.Rows.Update.{Kept-found}
use certiva.Lifecycle.Steps.{Steps}
use certiva.Lifecycle.Life.{steps-Grows}

-- A row that was found stays found, as it was written, over any number of calls.
pub row_remains :
    (s s' : Registrar) (id : String) (c : Credential)
    → IsSound (rows s)
    → Steps s s'
    → find_first (has_id id) (rows s) ≡ some c
    → (d : Credential) × (find_first (has_id id) (rows s') ≡ some d) × Kept c d
row_remains s s' id c h run e =
    Kept-found id (rows s) (rows s') c (steps-Grows s s' h run).registry e

same_row :
    (id : String) (db : Db) (x d : Credential)
    → find_first (has_id id) db.credentials ≡ some x
    → find_first (Verification.has_id d.id) db.credentials ≡ some d
    → d.id ≡ id
    → d ≡ x
unfolding has_id Verification.has_id
same_row id db x d e f i =
    some-injective d x (
      sym f ∙ ap (λ (j : String). find_first (λ (c : Credential). c.id === j) db.credentials) i ∙ e)

-- Once a credential is revoked, no public lookup finds it valid again: after any number of calls,
-- verifications and runs of the worker, a lookup whose reference finds that credential answers, and
-- its answer is not valid, whatever the chain and the signature say. The ids of the registry that is
-- looked up are distinct and not empty.
pub revoked_never_valid :
    (s s' : Registrar) (id : String) (c : Credential)
    → IsSound (rows s)
    → Steps s s'
    → find_first (has_id id) (rows s) ≡ some c
    → c.revoked ≡ true
    → (env : Env) (now : ℕ) (reference ip : String) (event : EventType) (db : Db) (d : Credential)
    → db.credentials ≡ rows s'
    → IsWellFormed db
    → find_first (reference_query reference) db.credentials ≡ some d
    → d.id ≡ id
    → (r : ReferenceResponse) × (after : Db) × (resolve_credential_reference env now reference ip
          event db
        ≡ ok (r, after))
      × (r.valid ≡ false)
revoked_never_valid s s' id c h run e v env now reference ip event db d same w found i =
    let (x, later, k) = row_remains s s' id c h run e in
    let kept : d ≡ x =
      same_row id db x d (ap (find_first (has_id id)) same ∙ later)
        (find_by_id (reference_query reference) db.credentials d w.distinct found) i in
    let is_revoked : d.revoked ≡ true =
      ap (λ (y : Credential). y.revoked) kept ∙ k.stays_revoked v in
    let (r, after, answer, verdict, count, at) =
      reference-valid_iff env now reference ip event db d w found in
    (r, after, answer, refused r.valid d.revoked is_revoked (λ t. (verdict.0 t).3))
  where
    refused : (b v : Bool) → v ≡ true → (b ≡ true → v ≡ false) → b ≡ false
    refused true v e f = cc (sym e ∙ f refl)
    refused false v e f = refl
