-- ===== src/Lifecycle/Counting.antt =====
-- How many credentials an issuing adds: one if it returns, none if it throws.
use mathlib.Core.Option
use certiva.Prelude.{
  ◌+◌, Bool, true, ◌≡◌, refl, sym, ap, ◌∙◌, inl, inr, String, Option, none, some, List, [], ◌∷◌,
  ◌++◌, Result, ok, err, Bool-cases, find_first, any_of, length, length-append, map, suc, eq_refl,
}
use certiva.Registry.{Credential, Issuer}
use certiva.Lifecycle.{
  run_on, Exception, Attempt, returns, throws, Registrar, M, ◌>>=◌, call, throw, Tools, rows,
  with_rows, find_one_or_throw, is_visible, required, AssetBundle, CredentialSignature,
}
use certiva.Anchoring.Frame.{registered}
use certiva.Anchoring.Queue.{anchor_or_mark, Producer}
use certiva.Lifecycle.Quiet.{Quiet, anchor_or_mark-Quiet}
use certiva.Institution.{find_issuer}
use certiva.Lifecycle.Issue.{
  IssueInput, Draft, draft, shares_unique, shares_live_key, insert_credential, insert_and_enqueue,
  on_failed_insert, store_credential, generated, required_issuer, read_issuer,
  issue_credential_record, new_credential, signing_input,
}

-- One row more on return, as many as before on a throw.
abbrev pub Adds : Registrar → Attempt Credential × Registrar → Type 0
Adds s (returns c, t) = length (rows t) ≡ length (rows s) + 1
Adds s (throws e, t) = length (rows t) ≡ length (rows s)

visible-registered :
    (id : String) (xs : List Credential)
    → find_first (is_visible id) (map registered xs)
      ≡ Option.map registered (find_first (is_visible id) xs)
visible-registered id [] = refl
visible-registered id (c ∷ xs) = elim (Bool-cases (is_visible id c)) [
  | inl t ↦ rw t refl
  | inr n ↦ rw n (visible-registered id xs)
]

length-registered : (xs : List Credential) → length (map registered xs) ≡ length xs
length-registered [] = refl
length-registered (c ∷ xs) = ap suc (length-registered xs)

found-append :
    (p : Credential → Bool) (xs : List Credential) (new : Credential)
    → p new ≡ true
    → (d : Credential) × (find_first p (xs ++ new ∷ []) ≡ some d)
found-append p [] new t = (new, rw t refl)
found-append p (c ∷ xs) new t = elim (Bool-cases (p c)) [
  | inl u ↦ (c, rw u refl)
  | inr n ↦ simp n (found-append p xs new t)
]

is_mapped :
    (o o' : Option Credential) (d : Credential)
    → Option.map registered o' ≡ Option.map registered o
    → o ≡ some d
    → (x : Credential) × (o' ≡ some x)
is_mapped o (some x) d e f = (x, refl)
is_mapped none none d e f = cc
is_mapped (some y) none d e f = cc

-- What the queue's producer leaves visible.
still-visible :
    (id : String) (p p' : Producer) (d : Credential)
    → Quiet p p'
    → find_first (is_visible id) p.store.credentials ≡ some d
    → (x : Credential) × (find_first (is_visible id) p'.store.credentials ≡ some x)
still-visible id p p' d q e =
    is_mapped (find_first (is_visible id) p.store.credentials) _ d
      (sym (visible-registered id p'.store.credentials)
        ∙ ap (find_first (is_visible id)) q.same
        ∙ visible-registered id p.store.credentials)
      e

as_long : (p p' : Producer) → Quiet p p' → length p'.store.credentials ≡ length p.store.credentials
as_long p p' q =
    sym (length-registered p'.store.credentials)
    ∙ ap length q.same
    ∙ length-registered p.store.credentials

required-Adds :
    (s t : Registrar) (o : Option Credential) (x : Credential)
    → o ≡ some x
    → length (rows t) ≡ length (rows s) + 1
    → Adds s (required o t)
unfolding required
required-Adds s t (some c) x e h = h
required-Adds s t none x e h = cc

-- An insertion that fails adds nothing, whether or not its assets can be deleted.
failed-Adds :
    (s : Registrar) (d : Result (Unit {0})) (e : Exception) (k : Credential → M Credential)
    → Adds s (run_on ((call d >>= λ _. throw {A = Credential} e) s) k)
failed-Adds s (ok d) e k = refl
failed-Adds s (err m) e k = refl

store-Adds :
    (t : Tools) (new : Credential) (s : Registrar)
    → is_visible new.id new ≡ true
    → Adds s (store_credential t new s)
unfolding store_credential insert_and_enqueue on_failed_insert insert_credential find_one_or_throw
store-Adds t new s v = elim (Bool-cases (any_of (shares_unique new) (rows s))) [
  | inl u ↦ simp u (failed-Adds s (t.delete_assets t.new_credential_id) _ _)
  | inr n ↦ elim (Bool-cases (any_of (shares_live_key new) (rows s))) [
    | inl u ↦ simp (n, u) (failed-Adds s (t.delete_assets t.new_credential_id) _ _)
    | inr m ↦
        let p : Producer = (with_rows (rows s ++ new ∷ []) s).producer in
        let q = anchor_or_mark-Quiet t.add new.id p in
        let (d, found) = found-append (is_visible new.id) (rows s) new v in
        let (x, still) = still-visible new.id p (anchor_or_mark t.add new.id p) d q found in
        simp (n, m)
          (required-Adds s _ _ x still
            (as_long p (anchor_or_mark t.add new.id p) q ∙ length-append (rows s) (new ∷ [])))
  ]
]

call-Adds :
    {A : Type 0} (r : Result A) (k : A → M Credential) (s : Registrar)
    → ((a : A) → Adds s (k a s))
    → Adds s ((call r >>= k) s)
call-Adds (ok a) k s next = next a
call-Adds (err m) k s next = refl

generated-Adds :
    (r : Result AssetBundle) (k : AssetBundle → M Credential) (s : Registrar)
    → ((b : AssetBundle) → Adds s (k b s))
    → Adds s ((generated r >>= k) s)
unfolding generated
generated-Adds (ok b) k s next = next b
generated-Adds (err m) k s next = refl

issuer-Adds :
    (o : Option Issuer) (k : Issuer → M Credential) (s : Registrar)
    → ((i : Issuer) → Adds s (k i s))
    → Adds s ((required_issuer o >>= k) s)
issuer-Adds none k s next = refl
issuer-Adds (some i) k s next = next i

new-visible :
    (t : Tools) (issuer : Issuer) (input : IssueInput) (d : Draft) (g : CredentialSignature)
    (b : AssetBundle)
    → let new = new_credential t issuer input d g b in is_visible new.id new ≡ true
unfolding new_credential
new-visible t issuer input d g b = simp (eq_refl) refl

-- An issuing that returns has added one credential, and one that throws has added none.
pub issue-Adds :
    (t : Tools) (issuer_id : String) (input : IssueInput) (s : Registrar)
    → Adds s (issue_credential_record t issuer_id input s)
unfolding issue_credential_record read_issuer
issue-Adds t issuer_id input s =
    issuer-Adds (find_issuer (some issuer_id) s.accounts.issuers) _ s (λ issuer.
      call-Adds (t.sign_credential (signing_input t issuer input)) _ s (λ g.
        generated-Adds (t.generate_and_persist _) _ s
          (λ b. store-Adds t _ s (new-visible t issuer input (draft t issuer input) g b))))
