-- ===== src/Lifecycle/Growth.antt =====
-- What any call of the credential service leaves of the state before it: a sound table that extends
-- the old one, and logs that have only grown.
use certiva.Prelude.{
  Bool, true, false, ◌≡◌, refl, sym, ap, subst, String, Option, Result, ok, err, ◌===◌, Continues,
  Continues-refl, Continues-append, Continues-trans, if◌then◌else◌, update_where, All, arith,
}
use certiva.Registry.{Credential}
use certiva.Auth.{Accounts, JwtPayload}
use certiva.Anchoring.{has_id}
use certiva.Anchoring.Queue.{Producer}
use certiva.Institution.{
  Setting, active_institution, resolve_institution_for_admin, resolve_institution_id,
}
use certiva.Lifecycle.Quiet.{Quiet}
use certiva.Lifecycle.{
  Exception, forbidden, Attempt, pure, resolved, same_issuer, returns, throws, Registrar, M, run_on,
  ◌>>=◌, rows, with_rows, log, resolve_id, assert_credential_access, check, call, is_admin,
}
use certiva.Lifecycle.Rows.{Kept, Extends, Extends-refl, Extends-trans, IsOrderly, IsSound}
use certiva.Lifecycle.Rows.Update.{Extends-update_where, update_where-IsSound}

pub record Grows (s s' : Registrar) : Type 0 where
  pub sound : IsSound (rows s')
  pub registry : Extends (rows s) (rows s')
  pub audited : Continues s.accounts.audit_log s'.accounts.audit_log
  pub logged : Continues s.producer.store.anchor_logs s'.producer.store.anchor_logs

pub Grows-refl : (s : Registrar) → IsSound (rows s) → Grows s s
Grows-refl s h = record {
  sound = h;
  registry = Extends-refl (rows s);
  audited = Continues-refl s.accounts.audit_log;
  logged = Continues-refl s.producer.store.anchor_logs;
}

pub Grows-trans : (s t u : Registrar) → Grows s t → Grows t u → Grows s u
Grows-trans s t u h k = record {
  sound = k.sound;
  registry = Extends-trans (rows s) (rows t) (rows u) h.registry k.registry;
  audited =
      Continues-trans s.accounts.audit_log t.accounts.audit_log u.accounts.audit_log h.audited
        k.audited;
  logged =
      Continues-trans s.producer.store.anchor_logs t.producer.store.anchor_logs
        u.producer.store.anchor_logs h.logged k.logged;
}

-- An update by id of columns that may change, which deletes no unrevoked row.
pub updated-Grows :
    (id : String) (f : Credential → Credential) (s : Registrar)
    → ((c : Credential) → has_id id c ≡ true → Kept c (f c))
    → IsSound (rows s)
    → All (λ c. has_id id c ≡ true → IsOrderly (f c)) (rows s)
    → Grows s (with_rows (update_where (has_id id) f (rows s)) s)
updated-Grows id f s keep h o = record {
  sound = update_where-IsSound (has_id id) f keep (rows s) h o;
  registry = Extends-update_where (has_id id) f keep (rows s);
  audited = Continues-refl s.accounts.audit_log;
  logged = Continues-refl s.producer.store.anchor_logs;
}

module _ (s : Registrar) (h : IsSound (rows s)) where
  pub log-Grows :
      (action : String) (admin : JwtPayload) (target : Option String)
      → Grows s (log action admin target s).1
  unfolding log
  log-Grows action admin target = record {
    sound = h;
    registry = Extends-refl (rows s);
    audited = Continues-append s.accounts.audit_log _;
    logged = Continues-refl s.producer.store.anchor_logs;
  }

  pub check-Grows : (b : Bool) (e : Exception) → Grows s (check b e s).1
  check-Grows true e = Grows-refl s h
  check-Grows false e = Grows-refl s h

  pub call-Grows : {A : Type 0} (r : Result A) → Grows s (call r s).1
  call-Grows (ok a) = Grows-refl s h
  call-Grows (err m) = Grows-refl s h

-- A step of the producer is a step of the state.
pub Quiet-Grows :
    (s : Registrar) (p' : Producer)
    → IsSound (rows s)
    → Quiet s.producer p'
    → Grows s (record s { producer = p' })
Quiet-Grows s p' h q = record {
  sound = q.sound h;
  registry = q.registry;
  audited = Continues-refl s.accounts.audit_log;
  logged = q.logged;
}

-- Resolving an institution may seed one and link the account to it, and logs nothing.
resolve-audit :
    (v : Setting) (admin : JwtPayload) (s : Accounts)
    → (resolve_institution_id v admin s).1.audit_log ≡ s.audit_log
unfolding resolve_institution_id resolve_institution_for_admin active_institution
resolve-audit v admin s = ground arith

-- A call that touches the accounts only, and logs nothing.
pub record Passes (s s' : Registrar) : Type 0 where
  pub same_producer : s'.producer ≡ s.producer
  pub same_log : s'.accounts.audit_log ≡ s.accounts.audit_log

pub Passes-refl : (s : Registrar) → Passes s s
Passes-refl s = record { same_producer = refl; same_log = refl }

pub Passes-Grows : (s s' : Registrar) → IsSound (rows s) → Passes s s' → Grows s s'
Passes-Grows s s' h p =
    let same : rows s' ≡ rows s = ap (λ (q : Producer). q.store.credentials) p.same_producer in
    record {
      sound = subst IsSound (sym same) h;
      registry = subst (Extends (rows s)) (sym same) (Extends-refl (rows s));
      audited =
          subst (Continues s.accounts.audit_log) (sym p.same_log)
            (Continues-refl s.accounts.audit_log);
      logged =
          subst (λ (q : Producer). Continues s.producer.store.anchor_logs q.store.anchor_logs)
            (sym p.same_producer) (Continues-refl s.producer.store.anchor_logs);
    }

resolved-Passes :
    {A : Type 0} (s : Registrar) (r : Result A × Accounts)
    → r.1.audit_log ≡ s.accounts.audit_log
    → Passes s (resolved s r).1
unfolding resolved
resolved-Passes s (ok a, accounts) h = record { same_producer = refl; same_log = h }
resolved-Passes s (err m, accounts) h = record { same_producer = refl; same_log = h }

pub resolve_id-Passes :
    (v : Setting) (admin : JwtPayload) (s : Registrar) → Passes s (resolve_id v admin s).1
unfolding resolve_id
resolve_id-Passes v admin s =
    resolved-Passes s (resolve_institution_id v admin s.accounts) (resolve-audit v admin s.accounts)

checked-Passes :
    (s : Registrar) (issuer_id : String) (r : Attempt String × Registrar)
    → Passes s r.1
    → Passes s (run_on r (λ id. same_issuer id issuer_id)).1
unfolding same_issuer
checked-Passes s issuer_id (throws e, t) h = h
checked-Passes s issuer_id (returns id, t) h =
    elim (id === issuer_id)
      as (λ b. Passes s (check b (forbidden "You do not have access to this credential") t).1) [
        | true ↦ h
        | false ↦ h
      ]

pub access-Passes :
    (v : Setting) (admin : JwtPayload) (issuer_id : String) (s : Registrar)
    → Passes s (assert_credential_access v admin issuer_id s).1
unfolding assert_credential_access
access-Passes v admin issuer_id s =
    elim (is_admin admin.role)
      as (λ b.
        Passes s
          ((if b then (resolve_id v admin >>= λ id. same_issuer id issuer_id) else pure tt) s).1) [
            | true ↦ checked-Passes s issuer_id _ (resolve_id-Passes v admin s)
            | false ↦ Passes-refl s
          ]

-- A statement and what follows it, from any sound state.
module _ {A B : Type 0} (s : Registrar) where
  pub run_on-Grows :
      (r : Attempt A × Registrar) (k : A → M B)
      → Grows s r.1
      → ((a : A) → Grows r.1 (k a r.1).1)
      → Grows s (run_on r k).1
  run_on-Grows (returns a, t) k h next = Grows-trans s t (k a t).1 h (next a)
  run_on-Grows (throws e, t) k h next = h

  pub then-Grows :
      (m : M A) (k : A → M B)
      → Grows s (m s).1
      → ((a : A) (t : Registrar) → IsSound (rows t) → Grows t (k a t).1)
      → Grows s ((m >>= k) s).1
  then-Grows m k h next = run_on-Grows (m s) k h (λ a. next a (m s).1 h.sound)

pub either-Grows :
    {X : Type 0} (s : Registrar) (b : Bool) (x y : X × Registrar)
    → Grows s x.1
    → Grows s y.1
    → Grows s (if b then x else y).1
either-Grows s true x y h k = h
either-Grows s false x y h k = k
