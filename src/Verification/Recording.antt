-- ===== src/Verification/Recording.antt =====
-- What `recordVerification` writes, and that credentials keep their ids.
use certiva.Prelude.{
  ℕ, Bool, true, false, ◌≡◌, ◌≢◌, refl, ap, subst, inl, inr, String, Option, none, some, List, [],
  ◌∷◌, ◌++◌, Result, ok, ◌===◌, truthy, arith, eq_iff, find_first, update_where, All, Bool-cases,
  find_first-All, find_first-update_where, All-update_where,
}
use mathlib.Core.Option.{some-injective}
use certiva.Registry.{Credential, VerificationLog, VerificationStatus}
use certiva.Verification.{Db, count_verification, has_id, commit_verification, record_verification}

-- The primary key of the table.
abbrev pub HasDistinctIds : List Credential → Type 0
HasDistinctIds [] = Unit
HasDistinctIds (c ∷ cs) = All (λ d. d.id ≢ c.id) cs × HasDistinctIds cs

All-update_where_id :
    (p : Credential → Bool) (now : ℕ) (i : String) (cs : List Credential)
    → All (λ d. d.id ≢ i) cs
    → All (λ d. d.id ≢ i) (update_where p (count_verification now) cs)
All-update_where_id p now i [] h = tt
All-update_where_id p now i (c ∷ cs) (n, h) = elim (Bool-cases (p c)) [
  | inl e ↦ (rw e n, All-update_where_id p now i cs h)
  | inr e ↦ (rw e n, All-update_where_id p now i cs h)
]

-- Counting a verification leaves the primary key alone.
update_where-HasDistinctIds :
    (p : Credential → Bool) (now : ℕ) (cs : List Credential)
    → HasDistinctIds cs
    → HasDistinctIds (update_where p (count_verification now) cs)
update_where-HasDistinctIds p now [] h = tt
update_where-HasDistinctIds p now (c ∷ cs) (n, h) = elim (Bool-cases (p c)) [
  | inl e ↦ (rw e (All-update_where_id p now c.id cs n), update_where-HasDistinctIds p now cs h)
  | inr e ↦ (rw e (All-update_where_id p now c.id cs n), update_where-HasDistinctIds p now cs h)
]

-- With distinct ids, the row that a query finds is the row that its id finds.
pub find_by_id :
    (p : Credential → Bool) (cs : List Credential) (c : Credential)
    → HasDistinctIds cs
    → find_first p cs ≡ some c
    → find_first (has_id c.id) cs ≡ some c
unfolding has_id
find_by_id p [] c h e = cc
find_by_id p (d ∷ ds) c (n, h) e = elim (Bool-cases (p d)) [
  | inl t ↦
      let same = some-injective d c (rw t at e) in
      rw ((eq_iff d.id c.id).1 (ap (λ (x : Credential). x.id) same)) (ap some same)
  | inr f ↦
      let found = rw f at e in
      let other = find_first-All (λ x. x.id ≢ d.id) p ds c n found in
      ground (arith, eq_iff d.id c.id, other, find_by_id p ds c h found)
]

-- The registry that the endpoints work on: distinct ids, none of them empty.
pub record IsWellFormed (db : Db) : Type 0 where
  pub distinct : HasDistinctIds db.credentials
  pub named : All (λ c. truthy (some c.id) ≡ true) db.credentials

-- The registry after a matched verification of the credential `id`.
abbrev pub counted : Db → VerificationLog → String → Db
counted db log id = record {
  credentials = update_where (has_id id) (count_verification log.created_at) db.credentials;
  verification_logs = db.verification_logs ++ log ∷ [];
}

-- The registry after a verification that matched nothing.
abbrev pub logged : Db → VerificationLog → Db
logged db log = record db { verification_logs = db.verification_logs ++ log ∷ [] }

pub record_verification_missing :
    (db : Db) (log : VerificationLog)
    → log.credential_id ≡ none
    → record_verification db log ≡ ok (none, logged db log)
unfolding record_verification
record_verification_missing db log e = rw e refl

commit_verification_found :
    (db : Db) (log : VerificationLog) (id : String) (c : Credential)
    → find_first
        (has_id id)
        (update_where (has_id id) (count_verification log.created_at) db.credentials)
      ≡ some c
    → commit_verification db log id ≡ ok (some c, counted db log id)
unfolding commit_verification
commit_verification_found db log id c e = rw (e, commit_verification) refl

-- Recording the verification of a credential that a query found never fails: it adds the log row
-- and returns the credential with its count raised by one and its time set.
pub record_verification_found :
    (db : Db) (log : VerificationLog) (p : Credential → Bool) (c : Credential)
    → IsWellFormed db
    → find_first p db.credentials ≡ some c
    → log.credential_id ≡ some c.id
    → record_verification db log
      ≡ ok (some (count_verification log.created_at c), counted db log c.id)
unfolding record_verification
record_verification_found db log p c w found e =
    let id = find_first-All (λ d. truthy (some d.id) ≡ true) p db.credentials c w.named found in
    let by_id = find_by_id p db.credentials c w.distinct found in
    let updated =
      find_first-update_where (has_id c.id) (count_verification log.created_at) db.credentials c
        (λ y h. unfold has_id in h) by_id in
    simp (e, id) (commit_verification_found db log c.id _ updated)

-- Recording keeps the registry well formed.
pub counted-IsWellFormed :
    (db : Db) (log : VerificationLog) (id : String)
    → IsWellFormed db
    → IsWellFormed (counted db log id)
counted-IsWellFormed db log id w = record {
  distinct = update_where-HasDistinctIds (has_id id) log.created_at db.credentials w.distinct;
  named =
      All-update_where (λ d. truthy (some d.id) ≡ true) (has_id id)
        (count_verification log.created_at) db.credentials (λ d h _. h) w.named;
}

-- The row of a matched verification in the new registry: the found one, counted.
pub find-counted :
    (db : Db) (log : VerificationLog) (p : Credential → Bool) (c : Credential)
    → IsWellFormed db
    → find_first p db.credentials ≡ some c
    → find_first (has_id c.id) (counted db log c.id).credentials
      ≡ some (count_verification log.created_at c)
unfolding has_id
find-counted db log p c w found =
    find_first-update_where (has_id c.id) (count_verification log.created_at) db.credentials c
      (λ y h. h) (find_by_id p db.credentials c w.distinct found)

find-counted_ne :
    (i j : String) (now : ℕ) (cs : List Credential)
    → j ≢ i
    → find_first (has_id i) (update_where (has_id j) (count_verification now) cs)
      ≡ find_first (has_id i) cs
unfolding has_id
find-counted_ne i j now [] n = refl
find-counted_ne i j now (c ∷ cs) n = elim (Bool-cases (c.id === j)) [
  | inl t ↦
      let missed : (c.id === i) ≡ false = ground (arith, eq_iff c.id j, eq_iff c.id i) in
      rw (t, missed) (find-counted_ne i j now cs n)
  | inr f ↦ rw (find-counted_ne i j now cs n, f) refl
]

abbrev id_of : Option Credential → Option String
id_of none = none
id_of (some c) = some c.id

abbrev pub is_found : Option Credential → Bool
is_found none = false
is_found (some c) = true

-- What a verification leaves behind: one log row about what was found, the found credential
-- counted, every other credential as it was, and a registry that is still well formed.
pub record Records (c : Option Credential) (db db' : Db) (log : VerificationLog) : Type 0 where
  pub appended : db'.verification_logs ≡ db.verification_logs ++ log ∷ []
  pub about : log.credential_id ≡ id_of c
  pub counts :
      (d : Credential)
      → c ≡ some d
      → find_first (has_id d.id) db'.credentials ≡ some (count_verification log.created_at d)
  pub keeps :
      (i : String)
      → id_of c ≢ some i
      → find_first (has_id i) db'.credentials ≡ find_first (has_id i) db.credentials
  pub well_formed : IsWellFormed db'

pub Records-logged :
    (db : Db) (log : VerificationLog)
    → IsWellFormed db
    → log.credential_id ≡ none
    → Records none db (logged db log) log
Records-logged db log w e = record {
  appended = refl;
  about = e;
  counts = λ d h. cc;
  keeps = λ i h. refl;
  well_formed = record { distinct = w.distinct; named = w.named };
}

pub Records-counted :
    (db : Db) (log : VerificationLog) (p : Credential → Bool) (c : Credential)
    → IsWellFormed db
    → find_first p db.credentials ≡ some c
    → log.credential_id ≡ some c.id
    → Records (some c) db (counted db log c.id) log
Records-counted db log p c w found e = record {
  appended = refl;
  about = e;
  counts = λ d h.
      subst
        (λ (x : Credential).
          find_first (has_id x.id) (counted db log c.id).credentials
          ≡ some (count_verification log.created_at x))
        (some-injective c d h) (find-counted db log p c w found);
  keeps = λ i h. find-counted_ne i c.id log.created_at db.credentials (λ q. h (ap some q));
  well_formed = counted-IsWellFormed db log c.id w;
}

-- An answer that is recorded: the endpoint returns, and its one log row has the verdict of the
-- answer and says whether it matched.
pub record Answers {ℓ} {R : Type ℓ} (verdict : R → VerificationStatus) (matches : R → Bool)
    (c : Option Credential) (db : Db) (call : Result (R × Db)) : Type ℓ where
  pub response : R
  pub after : Db
  pub log : VerificationLog
  pub returns : call ≡ ok (response, after)
  pub records : Records c db after log
  pub matched : log.matched ≡ matches response
  pub same_verdict : log.status ≡ verdict response
