-- ===== src/Lifecycle/Quiet.antt =====
-- What the queue's producer leaves of the tables, when a service calls it.
use certiva.Prelude.{
  ◌≡◌, refl, inl, inr, String, Option, none, some, List, Result, ok, err, Bool-cases, Bool, true,
  false, if◌then◌else◌, ◌===◌, map, ap, ◌∙◌, is_some, Continues, Continues-refl, Continues-append,
  Continues-trans,
}
use certiva.Registry.{Credential}
use certiva.Anchoring
use certiva.Anchoring.{LogInput, has_id, anchor, revoke, persist_lifecycle_log}
use certiva.Anchoring.Frame.{registered, registered-update_where}
use certiva.Anchoring.Queue.{
  Add, Job, Producer, add_job, enqueue_anchor, enqueue_revoke, mark_pending, queue_failure_status,
  apply_status, mark_queue_failure, settle, revoke_or_mark, anchor_or_mark,
}
use certiva.Lifecycle.Rows.{Kept, fixed, Extends, Extends-refl, Extends-trans, IsOrderly, IsSound}
use certiva.Lifecycle.Rows.Update.{Extends-update_where, update_where-IsSound, All-IsOrderly}

-- What the queue's producer does to the tables.
pub record Quiet (p p' : Producer) : Type 0 where
  pub sound : IsSound p.store.credentials → IsSound p'.store.credentials
  pub registry : Extends p.store.credentials p'.store.credentials
  pub logged : Continues p.store.anchor_logs p'.store.anchor_logs
  pub same : map registered p'.store.credentials ≡ map registered p.store.credentials

Quiet-refl : (p : Producer) → Quiet p p
Quiet-refl p = record {
  sound = λ h. h;
  registry = Extends-refl p.store.credentials;
  logged = Continues-refl p.store.anchor_logs;
  same = refl;
}

Quiet-trans : (p q r : Producer) → Quiet p q → Quiet q r → Quiet p r
Quiet-trans p q r h k = record {
  sound = λ x. k.sound (h.sound x);
  registry =
      Extends-trans p.store.credentials q.store.credentials r.store.credentials h.registry
        k.registry;
  logged =
      Continues-trans p.store.anchor_logs q.store.anchor_logs r.store.anchor_logs h.logged k.logged;
  same = k.same ∙ h.same;
}

module _ (id : String) (p : Producer) where
  persist-Quiet :
      (input : LogInput) → Quiet p (record p { store = persist_lifecycle_log id input p.store })
  unfolding persist_lifecycle_log
  persist-Quiet input = record {
    sound = λ h. h;
    registry = Extends-refl p.store.credentials;
    logged = Continues-append p.store.anchor_logs _;
    same = refl;
  }

  -- An update of status columns.
  status-Quiet :
      (f : Credential → Credential)
      → ((c : Credential) → Kept c (f c))
      → ((c : Credential) → IsOrderly c → IsOrderly (f c))
      → ((c : Credential) → registered (f c) ≡ registered c)
      → Quiet p (record p { store = Anchoring.update_credential id f p.store })
  unfolding Anchoring.update_credential
  status-Quiet f keep o e = record {
    sound = λ h.
        update_where-IsSound (has_id id) f (λ c _. keep c) p.store.credentials h
          (All-IsOrderly (has_id id) f p.store.credentials o h.orderly);
    registry = Extends-update_where (has_id id) f (λ c _. keep c) p.store.credentials;
    logged = Continues-refl p.store.anchor_logs;
    same = registered-update_where (has_id id) f p.store.credentials e;
  }

either-Quiet :
    (p : Producer) (b : Bool) (x y : Result (Unit {0}) × Producer)
    → Quiet p x.1
    → Quiet p y.1
    → Quiet p (if b then x else y).1
either-Quiet p true x y h k = h
either-Quiet p false x y h k = k

jobs-Quiet : (p : Producer) (jobs : List Job) → Quiet p (record p { jobs = jobs })
jobs-Quiet p jobs = record {
  sound = λ h. h;
  registry = Extends-refl p.store.credentials;
  logged = Continues-refl p.store.anchor_logs;
  same = refl;
}

module _ (add : Add) (job : Job) (p : Producer) where
  added-Quiet : (r : Result (List Job)) → add p.jobs job ≡ r → Quiet p (add_job add job p).1
  unfolding add_job
  added-Quiet (ok jobs) e = rw e (jobs-Quiet p jobs)
  added-Quiet (err m) e = rw e (Quiet-refl p)

  add_job-Quiet : Quiet p (add_job add job p).1
  add_job-Quiet = added-Quiet (add p.jobs job) refl

module _ (add : Add) (id : String) (p : Producer) where
  enqueue_revoke-Quiet : Quiet p (enqueue_revoke add id p).1
  unfolding enqueue_revoke
  enqueue_revoke-Quiet =
      either-Quiet p p.enabled _ _
        (Quiet-trans p _ _ (persist-Quiet id p _) (add_job-Quiet add _ _)) (Quiet-refl p)

  enqueue_anchor-Quiet : Quiet p (enqueue_anchor add id p).1
  unfolding enqueue_anchor
  enqueue_anchor-Quiet =
      either-Quiet p p.enabled _ _
        (Quiet-trans p _ _
          (Quiet-trans p _ _
            (status-Quiet id p mark_pending pending-Kept pending-orderly pending_registered)
            (persist-Quiet id _ _))
          (add_job-Quiet add _ _))
        (Quiet-refl p)
    where
      pending-Kept : (c : Credential) → Kept c (mark_pending c)
      pending-Kept c =
          unfold mark_pending in
          record {
            same = refl;
            hashes = inl (refl, refl);
            stays_revoked = λ h. h;
            stays_deleted = λ h. h;
          }

      pending_registered : (c : Credential) → registered (mark_pending c) ≡ registered c
      pending_registered c = unfold mark_pending in refl

      pending-orderly : (c : Credential) → IsOrderly c → IsOrderly (mark_pending c)
      pending-orderly c o = unfold mark_pending in o

-- An update, if any, of status columns only.
abbrev IsStatus : Option (Credential → Credential) → Type 0
IsStatus none = Unit
IsStatus (some f) =
    ((c : Credential) → Kept c (f c))
    × ((c : Credential) → IsOrderly c → IsOrderly (f c))
    × ((c : Credential) → registered (f c) ≡ registered c)

failure-IsStatus : (operation : String) → IsStatus (queue_failure_status operation)
unfolding queue_failure_status
failure-IsStatus operation = elim (Bool-cases (operation === anchor)) [
  | inl t ↦ rw t (λ c. same c refl refl refl (refl, refl), λ c o. o, λ c. refl)
  | inr n ↦ elim (Bool-cases (operation === revoke)) [
    | inl t ↦ rw (n, t) (λ c. same c refl refl refl (refl, refl), λ c o. o, λ c. refl)
    | inr m ↦ rw (n, m) tt
  ]
]
  where
    same :
        (c : Credential) {d : Credential}
        → fixed d ≡ fixed c
        → d.revoked ≡ c.revoked
        → d.deleted_at ≡ c.deleted_at
        → (d.document_hash ≡ c.document_hash) × (d.chain_proof_hash ≡ c.chain_proof_hash)
        → Kept c d
    same c e f g h = record {
      same = e;
      hashes = inl h;
      stays_revoked = λ h. f ∙ h;
      stays_deleted = λ h. ap is_some g ∙ h;
    }

module _ (id operation message : String) (p : Producer) where
  failure-Quiet :
      (o : Option (Credential → Credential))
      → IsStatus o
      → Quiet p (record p { store = apply_status id o p.store })
  failure-Quiet none h = Quiet-refl p
  failure-Quiet (some f) (keep, o, e) = status-Quiet id p f keep o e

  mark_queue_failure-Quiet : Quiet p (mark_queue_failure id operation message p)
  unfolding mark_queue_failure
  mark_queue_failure-Quiet =
      Quiet-trans p _ _ (failure-Quiet _ (failure-IsStatus operation)) (persist-Quiet id _ _)

pub settle-Quiet :
    (id operation : String) (p : Producer) (r : Result (Unit {0}) × Producer)
    → Quiet p r.1
    → Quiet p (settle id operation r)
unfolding settle
settle-Quiet id operation p (ok u, q) h = h
settle-Quiet id operation p (err e, q) h =
    Quiet-trans p q _ h (mark_queue_failure-Quiet id operation e q)

pub revoke_or_mark-Quiet :
    (add : Add) (id : String) (p : Producer) → Quiet p (revoke_or_mark add id p)
unfolding revoke_or_mark
revoke_or_mark-Quiet add id p = settle-Quiet id _ p _ (enqueue_revoke-Quiet add id p)

pub anchor_or_mark-Quiet :
    (add : Add) (id : String) (p : Producer) → Quiet p (anchor_or_mark add id p)
unfolding anchor_or_mark
anchor_or_mark-Quiet add id p = settle-Quiet id _ p _ (enqueue_anchor-Quiet add id p)
