-- ===== src/Lifecycle/Rows/Within.antt =====
-- Changes of the table of credentials that stay within one institution.
use certiva.Prelude.{
  Bool, true, false, not, ◌≡◌, refl, sym, ap, ◌∙◌, inl, inr, String, List, [], ◌∷◌, Result, ok, err,
  ◌===◌, Bool-cases, if◌then◌else◌, filter_by, update_where, All, All-update_where, eq_refl,
}
use certiva.Anchoring
use certiva.Registry.{Credential}
use certiva.Anchoring.{has_id, revoke, persist_lifecycle_log}
use certiva.Anchoring.Queue.{
  Add, Job, Producer, revoke_job, add_job, enqueue_revoke, queue_failure_status, mark_queue_failure,
  settle, revoke_or_mark,
}
use certiva.Lifecycle.Rows.{Fixed, Kept}
use certiva.Lifecycle.Rows.Update.{has_id-Kept}

-- The credentials of other institutions.
abbrev pub foreign : String → Credential → Bool
foreign i c = not (c.issuer.id === i)

-- The rows with this id belong to the institution.
abbrev pub Owned : String → String → List Credential → Type 0
Owned i id xs = All (λ c. has_id id c ≡ true → c.issuer.id ≡ i) xs

-- A change within the institution: no other's row is touched, and no row changes hands.
pub record Within (i : String) (xs ys : List Credential) : Type 0 where
  pub owned : (x : String) → Owned i x xs → Owned i x ys
  pub others : filter_by (foreign i) ys ≡ filter_by (foreign i) xs

pub Within-refl : (i : String) (xs : List Credential) → Within i xs xs
Within-refl i xs = record { owned = λ x o. o; others = refl }

pub Within-trans :
    (i : String) (xs ys zs : List Credential) → Within i xs ys → Within i ys zs → Within i xs zs
Within-trans i xs ys zs h k = record {
  owned = λ x o. k.owned x (h.owned x o);
  others = k.others ∙ h.others;
}

filter_by-skip :
    (p : Credential → Bool) (c : Credential) (xs : List Credential)
    → p c ≡ false
    → filter_by p (c ∷ xs) ≡ filter_by p xs
filter_by-skip p c xs e = rw e refl

own-foreign : (i : String) (c : Credential) → c.issuer.id ≡ i → foreign i c ≡ false
own-foreign i c e = ap (λ (j : String). not (j === i)) e ∙ ap not (eq_refl i)

Kept-issuer : (c d : Credential) → Kept c d → d.issuer.id ≡ c.issuer.id
Kept-issuer c d k = ap (λ (f : Fixed). f.issuer_id) k.same

module _ (i id : String) (f : Credential → Credential)
    (keep : (c : Credential) → Kept c (f c)) where
  others_updated :
      (xs : List Credential)
      → Owned i id xs
      → filter_by (foreign i) (update_where (has_id id) f xs) ≡ filter_by (foreign i) xs
  others_updated [] h = refl
  others_updated (c ∷ xs) (o, h) = elim (Bool-cases (has_id id c)) [
    | inl t ↦ simp t (
        filter_by-skip (foreign i) (f c) _
          (own-foreign i (f c) (Kept-issuer c (f c) (keep c) ∙ o t))
        ∙ others_updated xs h
        ∙ sym (filter_by-skip (foreign i) c xs (own-foreign i c (o t))))
    | inr n ↦
        simp n
          (ap (λ (ys : List Credential). if foreign i c then c ∷ ys else ys) (others_updated xs h))
  ]

  pub update-Within :
      (xs : List Credential) → Owned i id xs → Within i xs (update_where (has_id id) f xs)
  update-Within xs o = record {
    owned = λ x h.
        All-update_where (λ c. has_id x c ≡ true → c.issuer.id ≡ i) (has_id id) f xs
          (λ c k _ t. Kept-issuer c (f c) (keep c) ∙ k (sym (has_id-Kept x c (f c) (keep c)) ∙ t))
          h;
    others = others_updated xs o;
  }

-- The queue's producer marks the credential itself, or none.
module _ (add : Add) (i id : String) where
  marked-Within :
      (p : Producer) (e : String)
      → Owned i id p.store.credentials
      → Within i p.store.credentials (mark_queue_failure id revoke e p).store.credentials
  unfolding mark_queue_failure queue_failure_status persist_lifecycle_log
      Anchoring.update_credential
  marked-Within p e o =
      update-Within i id (λ c. record c { chain_status = "REVOKE_ENQUEUE_FAILED" })
        (λ c. record {
          same = refl;
          hashes = inl (refl, refl);
          stays_revoked = λ h. h;
          stays_deleted = λ h. h;
        })
        p.store.credentials o

  added-Within :
      (p : Producer) (job : Job) (r : Result (List Job))
      → add p.jobs job ≡ r
      → Owned i id p.store.credentials
      → Within i p.store.credentials (settle id revoke (add_job add job p)).store.credentials
  unfolding settle add_job
  added-Within p job (ok jobs) e o = rw e (Within-refl i p.store.credentials)
  added-Within p job (err m) e o = rw e (marked-Within p m o)

  pub revoke_or_mark-Within :
      (p : Producer)
      → Owned i id p.store.credentials
      → Within i p.store.credentials (revoke_or_mark add id p).store.credentials
  unfolding revoke_or_mark enqueue_revoke persist_lifecycle_log
  revoke_or_mark-Within p o = elim (Bool-cases p.enabled) [
    | inl t ↦ rw t (added-Within _ (revoke_job id) (add p.jobs (revoke_job id)) refl o)
    | inr n ↦ rw n (unfold settle in Within-refl i p.store.credentials)
  ]
