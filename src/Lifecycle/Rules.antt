-- ===== src/Lifecycle/Rules.antt =====
-- Rules for the statements of the credential service: what is to be shown of a call, once what its
-- first statement checked is known.
use certiva.Prelude.{
  Bool, true, false, ◌≡◌, refl, ap, String, Option, none, some, Result, ok, err, find_first, All,
}
use certiva.Registry.{Credential}
use certiva.Auth.{JwtPayload}
use certiva.Anchoring
use certiva.Anchoring.{has_id}
use certiva.Anchoring.Queue.{Producer}
use certiva.Institution.{Setting}
use certiva.Lifecycle.{
  Exception, Registrar, M, ◌>>=◌, ◌>>◌, rows, required, find_credential, find_one_or_throw,
  is_visible, update_credential, log, check, call, on_producer, assert_credential_access,
  resolve_id,
}
use certiva.Lifecycle.Rows.{Kept, IsOrderly, IsSound}
use certiva.Lifecycle.Quiet.{Quiet}
use certiva.Lifecycle.Growth.{
  Grows, Grows-refl, updated-Grows, log-Grows, Quiet-Grows, Passes-Grows, access-Passes,
  resolve_id-Passes, then-Grows, run_on-Grows,
}

module _ (s : Registrar) (h : IsSound (rows s)) where
  required-Grows : (o : Option Credential) → Grows s (required o s).1
  unfolding required
  required-Grows none = Grows-refl s h
  required-Grows (some c) = Grows-refl s h

  pub find_one-Grows : (id : String) → Grows s (find_one_or_throw id s).1
  unfolding find_one_or_throw
  find_one-Grows id = required-Grows (find_first (is_visible id) (rows s))

  pub update_credential-Grows :
      (id : String) (f : Credential → Credential)
      → ((c : Credential) → Kept c (f c))
      → All (λ c. has_id id c ≡ true → IsOrderly (f c)) (rows s)
      → Grows s (update_credential id f s).1
  unfolding update_credential Anchoring.update_credential
  update_credential-Grows id f keep o = updated-Grows id f s (λ c _. keep c) h o

module _ {B : Type 0} (s : Registrar) (h : IsSound (rows s)) where
  required-found :
      (o : Option Credential) (k : Credential → M B)
      → ((c : Credential) → o ≡ some c → Grows s (k c s).1)
      → Grows s ((required o >>= k) s).1
  unfolding required
  required-found none k next = Grows-refl s h
  required-found (some c) k next = next c refl

  pub found-then :
      (id : String) (k : Credential → M B)
      → ((c : Credential) → find_first (has_id id) (rows s) ≡ some c → Grows s (k c s).1)
      → Grows s ((find_credential id >>= k) s).1
  unfolding find_credential
  found-then id k next = required-found (find_first (has_id id) (rows s)) k next

  pub check-then :
      (b : Bool) (e : Exception) (k : M B)
      → (b ≡ true → Grows s (k s).1)
      → Grows s ((check b e >> k) s).1
  check-then true e k next = next refl
  check-then false e k next = Grows-refl s h

  pub call-then :
      {A : Type 0} (r : Result A) (k : A → M B)
      → ((a : A) → Grows s (k a s).1)
      → Grows s ((call r >>= k) s).1
  call-then (ok a) k next = next a
  call-then (err m) k next = Grows-refl s h

  pub access-then :
      (v : Setting) (admin : JwtPayload) (issuer_id : String) (k : M B)
      → ((t : Registrar) → IsSound (rows t) → rows t ≡ rows s → Grows t (k t).1)
      → Grows s ((assert_credential_access v admin issuer_id >> k) s).1
  access-then v admin issuer_id k next =
      let p = access-Passes v admin issuer_id s in
      let g = Passes-Grows s _ h p in
      run_on-Grows s (assert_credential_access v admin issuer_id s) (λ _. k) g
        (λ _. next _ g.sound (ap (λ (q : Producer). q.store.credentials) p.same_producer))

  pub resolve-then :
      (v : Setting) (admin : JwtPayload) (k : String → M B)
      → ((id : String) (t : Registrar) → IsSound (rows t) → Grows t (k id t).1)
      → Grows s ((resolve_id v admin >>= k) s).1
  resolve-then v admin k next =
      then-Grows s (resolve_id v admin) k (Passes-Grows s _ h (resolve_id-Passes v admin s)) next

  pub log-then :
      (action : String) (admin : JwtPayload) (target : Option String) (k : M B)
      → ((t : Registrar) → IsSound (rows t) → Grows t (k t).1)
      → Grows s ((log action admin target >> k) s).1
  log-then action admin target k next =
      then-Grows s (log action admin target) (λ _. k) (log-Grows s h action admin target)
        (λ _ t i. next t i)

  pub producer-then :
      (f : Producer → Producer) (k : M B)
      → Quiet s.producer (f s.producer)
      → ((t : Registrar) → IsSound (rows t) → Grows t (k t).1)
      → Grows s ((on_producer f >> k) s).1
  producer-then f k q next =
      then-Grows s (on_producer f) (λ _. k) (Quiet-Grows s (f s.producer) h q) (λ _ t i. next t i)

  pub update-then :
      (id : String) (f : Credential → Credential) (k : M B)
      → ((c : Credential) → Kept c (f c))
      → All (λ c. has_id id c ≡ true → IsOrderly (f c)) (rows s)
      → ((t : Registrar) → IsSound (rows t) → Grows t (k t).1)
      → Grows s ((update_credential id f >> k) s).1
  update-then id f k keep o next =
      then-Grows s (update_credential id f) (λ _. k) (update_credential-Grows s h id f keep o)
        (λ _ t i. next t i)
