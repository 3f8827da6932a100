-- ===== src/Lifecycle/Issuing.antt =====
-- Issuing adds at most one row, and only next to rows that it is apart from.
use certiva.Prelude.{
  inl, inr, String, Option, none, some, [], ◌∷◌, Result, ok, err, Bool-cases, any_of,
  Continues-refl,
}
use certiva.Registry.{Credential, Issuer}
use certiva.Auth.{JwtPayload}
use certiva.Lifecycle.{
  Attempt, returns, throws, Registrar, M, ◌>>=◌, pure, throw, Tools, rows, AssetBundle,
  CredentialSignature,
}
use certiva.Lifecycle.Rows.{Extends-append, IsOrderly, IsSound}
use certiva.Lifecycle.Rows.Update.{insert-IsSound}
use certiva.Lifecycle.Growth.{Grows, Grows-refl, Grows-trans, then-Grows}
use certiva.Lifecycle.Rules.{call-then, resolve-then, log-then, producer-then, find_one-Grows}
use certiva.Anchoring.Queue.{anchor_or_mark}
use certiva.Lifecycle.Quiet.{anchor_or_mark-Quiet}
use certiva.Lifecycle.Issue.{
  IssueInput, Draft, draft, shares_unique, shares_live_key, insert_credential, insert_and_enqueue,
  on_failed_insert, store_credential, generated, required_issuer, read_issuer,
  issue_credential_record, create, new_credential, reported, signing_input,
}
use certiva.Institution.{find_issuer}

new-IsOrderly :
    (t : Tools) (issuer : Issuer) (input : IssueInput) (d : Draft) (g : CredentialSignature)
    (b : AssetBundle)
    → IsOrderly (new_credential t issuer input d g b)
unfolding new_credential
new-IsOrderly t issuer input d g b = λ h. cc

insert-Grows :
    (new : Credential) (s : Registrar)
    → IsSound (rows s)
    → IsOrderly new
    → Grows s (insert_credential new s).1
unfolding insert_credential
insert-Grows new s h o = elim (Bool-cases (any_of (shares_unique new) (rows s))) [
  | inl t ↦ simp t (Grows-refl s h)
  | inr n ↦ elim (Bool-cases (any_of (shares_live_key new) (rows s))) [
    | inl t ↦ simp (n, t) (Grows-refl s h)
    | inr m ↦
        simp (n, m)
          (record {
            sound = insert-IsSound new (rows s) h n m o;
            registry = Extends-append (rows s) (new ∷ []);
            audited = Continues-refl s.accounts.audit_log;
            logged = Continues-refl s.producer.store.anchor_logs;
          })
  ]
]

insert-enqueue-Grows :
    (t : Tools) (new : Credential) (s : Registrar)
    → IsSound (rows s)
    → IsOrderly new
    → Grows s (insert_and_enqueue t new s).1
unfolding insert_and_enqueue
insert-enqueue-Grows t new s h o =
    then-Grows s (insert_credential new) _ (insert-Grows new s h o) (λ c u i.
      producer-then u i (anchor_or_mark t.add c.id) (pure c)
        (anchor_or_mark-Quiet t.add c.id u.producer) (λ v j. Grows-refl v j))

failed-Grows :
    (t : Tools) (s : Registrar) (r : Attempt Credential × Registrar)
    → Grows s r.1
    → Grows s (on_failed_insert t r).1
unfolding on_failed_insert
failed-Grows t s (returns c, u) g = g
failed-Grows t s (throws e, u) g = Grows-trans s u _ g (
    call-then u g.sound (t.delete_assets t.new_credential_id)
      (λ _. throw {A = Credential} (reported e)) (λ _. Grows-refl u g.sound))

store-Grows :
    (t : Tools) (new : Credential) (s : Registrar)
    → IsSound (rows s)
    → IsOrderly new
    → Grows s (store_credential t new s).1
unfolding store_credential
store-Grows t new s h o =
    then-Grows s (λ u. on_failed_insert t (insert_and_enqueue t new u)) _
      (failed-Grows t s _ (insert-enqueue-Grows t new s h o)) (λ c u i. find_one-Grows u i c.id)

generated-Grows :
    (r : Result AssetBundle) (k : AssetBundle → M Credential) (s : Registrar)
    → IsSound (rows s)
    → ((b : AssetBundle) → Grows s (k b s).1)
    → Grows s ((generated r >>= k) s).1
unfolding generated
generated-Grows (ok b) k s h next = next b
generated-Grows (err m) k s h next = Grows-refl s h

issuer-Grows :
    (o : Option Issuer) (k : Issuer → M Credential) (s : Registrar)
    → IsSound (rows s)
    → ((i : Issuer) → Grows s (k i s).1)
    → Grows s ((required_issuer o >>= k) s).1
issuer-Grows none k s h next = Grows-refl s h
issuer-Grows (some i) k s h next = next i

pub issue-Grows :
    (t : Tools) (issuer_id : String) (input : IssueInput) (s : Registrar)
    → IsSound (rows s)
    → Grows s (issue_credential_record t issuer_id input s).1
unfolding issue_credential_record read_issuer
issue-Grows t issuer_id input s h =
    issuer-Grows (find_issuer (some issuer_id) s.accounts.issuers) _ s h (λ issuer.
      call-then s h (t.sign_credential (signing_input t issuer input)) _ (λ g.
        generated-Grows (t.generate_and_persist _) _ s h
          (λ b. store-Grows t _ s h (new-IsOrderly t issuer input (draft t issuer input) g b))))

pub create-Grows :
    (t : Tools) (admin : JwtPayload) (input : IssueInput) (s : Registrar)
    → IsSound (rows s)
    → Grows s (create t admin input s).1
unfolding create
create-Grows t admin input s h = resolve-then s h t.setting admin _ (λ id u i.
    then-Grows u (issue_credential_record t id input) _ (issue-Grows t id input u i) (λ c v j.
      log-then v j "CREDENTIAL_ISSUED" admin (some c.id) (pure c) (λ w k. Grows-refl w k)))
