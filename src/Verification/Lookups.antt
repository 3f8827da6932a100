-- ===== src/Verification/Lookups.antt =====
-- What the lookup endpoints answer and leave behind, on every branch.
use certiva.Prelude.{
  ℕ, ◌+◌, true, false, ◌||◌, ◌≡◌, ◌≢◌, ◌↔◌, refl, inl, inr, String, Option, none, some, ok, truthy,
  find_first, Bool-cases, sym, subst,
}
use certiva.Registry.{Credential, EventType, VerificationStatus, valid, not_found}
use certiva.Blockchain.Verify.{verify_record}
use certiva.Verification.{
  Env, Db, build_signature_block, signature_valid, is_active, mismatched, revoked_on_chain,
  count_verification,
}
use certiva.Verification.Recording.{
  Answers, is_found, IsWellFormed, logged, counted, record_verification_missing,
  record_verification_found, Records-logged, Records-counted,
}
use certiva.Verification.Status.{valid_iff}
use certiva.Verification.Lookup.{
  VerifyDto, verify_query, status_of, status_or_not_found, verify, verify_log, verify_found,
  verify_response,
}
use certiva.Verification.Reference.{
  ReferenceResponse, not_found_response, is_valid, found_response, reference_query,
  resolve_credential_reference, resolve_missing, resolve_found, lookup_log,
}

is_valid-eq : (s : VerificationStatus) → is_valid s ≡ true → s ≡ valid
is_valid-eq valid t = refl
is_valid-eq _ t = cc

module _ (env : Env) (now : ℕ) (ip : String) (db : Db) (w : IsWellFormed db) where
  verify_found_missing :
      (dto : VerifyDto)
      → Answers (λ r. r.result) (λ _. is_found none) none db (verify_found env now dto ip db none)
  unfolding verify_found verify_response
  verify_found_missing dto =
      let log = verify_log now dto ip (status_or_not_found env none) none in
      record {
        response = verify_response env now none;
        after = logged db log;
        log = log;
        returns = rw (record_verification_missing db log refl) refl;
        records = Records-logged db log w refl;
        matched = refl;
        same_verdict = refl;
      }

  verify_found-some :
      (dto : VerifyDto) (c : Credential)
      → find_first (verify_query dto) db.credentials ≡ some c
      → Answers
          (λ r. r.result)
          (λ _. is_found (some c))
          (some c)
          db
          (verify_found env now dto ip db (some c))
  unfolding verify_found verify_response
  verify_found-some dto c e =
      let log = verify_log now dto ip (status_or_not_found env (some c)) (some c) in
      record {
        response = verify_response env now (some c);
        after = counted db log c.id;
        log = log;
        returns = rw (record_verification_found db log (verify_query dto) c w e refl) refl;
        records = Records-counted db log (verify_query dto) c w e refl;
        matched = refl;
        same_verdict = refl;
      }

  verify_found-Answers :
      (dto : VerifyDto) (c : Option Credential)
      → find_first (verify_query dto) db.credentials ≡ c
      → Answers (λ r. r.result) (λ _. is_found c) c db (verify_found env now dto ip db c)
  verify_found-Answers dto none e = verify_found_missing dto
  verify_found-Answers dto (some c) e = verify_found-some dto c e

verify_given :
    (env : Env) (now : ℕ) (dto : VerifyDto) (ip : String) (db : Db)
    → (truthy dto.credential_id || truthy dto.hash) ≡ true
    → verify env now dto ip db
      ≡ verify_found env now dto ip db (find_first (verify_query dto) db.credentials)
unfolding verify
verify_given env now dto ip db h = elim (Bool-cases (truthy dto.credential_id)) [
  | inl t ↦ rw t refl
  | inr f ↦ rw (f, rw f at h) refl
]

-- In a registry whose ids are distinct and not empty, `verify` answers whenever an id or a hash
-- is given: one log row holds the verdict that is returned and whether a live credential
-- matched all given criteria, that credential alone is counted, and nothing else of the
-- registry changes.
pub verify-Answers :
    (env : Env) (now : ℕ) (dto : VerifyDto) (ip : String) (db : Db)
    → IsWellFormed db
    → (truthy dto.credential_id || truthy dto.hash) ≡ true
    → Answers
        (λ r. r.result)
        (λ _. is_found (find_first (verify_query dto) db.credentials))
        (find_first (verify_query dto) db.credentials)
        db
        (verify env now dto ip db)
verify-Answers env now dto ip db w given =
    subst
      (Answers (λ r. r.result) (λ _. is_found (find_first (verify_query dto) db.credentials))
        (find_first (verify_query dto) db.credentials) db)
      (sym (verify_given env now dto ip db given)) (verify_found-Answers env now ip db w dto _ refl)

module _ (env : Env) (now : ℕ) (ip : String) (event : EventType) (db : Db)
    (w : IsWellFormed db) where
  resolve_missing-Answers :
      Answers (λ r. r.result) (λ _. is_found none) none db (resolve_missing now ip event db)
  unfolding resolve_missing not_found_response
  resolve_missing-Answers =
      let log = lookup_log none event false not_found ip now in
      record {
        response = not_found_response now;
        after = logged db log;
        log = log;
        returns = rw (record_verification_missing db log refl) refl;
        records = Records-logged db log w refl;
        matched = refl;
        same_verdict = refl;
      }

  -- The response shows the credential as it is after the count.
  abbrev found_answer : Credential → ReferenceResponse
  found_answer c =
      found_response env now (status_of env c) (verify_record env.rpc env.config c)
        (build_signature_block env.verify_ed25519 c) (count_verification now c)

  resolve_found_returns :
      (reference : String) (c : Credential)
      → find_first (reference_query reference) db.credentials ≡ some c
      → resolve_found env now ip event db c
        ≡ ok (
          found_answer c,
          counted db (lookup_log (some c.id) event true (status_of env c) ip now) c.id,
        )
  unfolding resolve_found
  resolve_found_returns reference c e =
      rw
        (record_verification_found db (lookup_log (some c.id) event true (status_of env c) ip now)
          (reference_query reference) c w e refl)
        refl

  resolve_found-Answers :
      (reference : String) (c : Credential)
      → find_first (reference_query reference) db.credentials ≡ some c
      → Answers
          (λ r. r.result)
          (λ _. is_found (some c))
          (some c)
          db
          (resolve_found env now ip event db c)
  unfolding found_response
  resolve_found-Answers reference c e =
      let log = lookup_log (some c.id) event true (status_of env c) ip now in
      record {
        response = found_answer c;
        after = counted db log c.id;
        log = log;
        returns = resolve_found_returns reference c e;
        records = Records-counted db log (reference_query reference) c w e refl;
        matched = refl;
        same_verdict = refl;
      }

  resolve_as :
      (reference : String) (c : Option Credential)
      → find_first (reference_query reference) db.credentials ≡ c
      → Answers
          (λ r. r.result)
          (λ _. is_found c)
          c
          db
          (resolve_credential_reference env now reference ip event db)
  unfolding resolve_credential_reference
  resolve_as reference none e = rw (e, resolve_credential_reference) resolve_missing-Answers
  resolve_as reference (some c) e =
      rw (e, resolve_credential_reference) (resolve_found-Answers reference c e)

-- In a registry whose ids are distinct and not empty, a lookup by external id, verification id,
-- code or signed token always answers: one log row holds the verdict that is returned and
-- whether a live credential was found, that credential alone is counted, and nothing else of
-- the registry changes.
pub reference-Answers :
    (env : Env) (now : ℕ) (reference ip : String) (event : EventType) (db : Db)
    → IsWellFormed db
    → Answers
        (λ r. r.result)
        (λ _. is_found (find_first (reference_query reference) db.credentials))
        (find_first (reference_query reference) db.credentials)
        db
        (resolve_credential_reference env now reference ip event db)
reference-Answers env now reference ip event db w =
    resolve_as env now ip event db w reference _ refl

-- In a registry whose ids are distinct and not empty, the public answer for a found credential
-- is `valid` exactly when its issuer is active, the chain does not contradict it, it is revoked
-- nowhere and no signature failed; its count is one higher than the stored one.
pub reference-valid_iff :
    (env : Env) (now : ℕ) (reference ip : String) (event : EventType) (db : Db) (c : Credential)
    → IsWellFormed db
    → find_first (reference_query reference) db.credentials ≡ some c
    → (r : ReferenceResponse) × (after : Db) × (resolve_credential_reference env now reference ip
          event db
        ≡ ok (r, after))
      × ((r.valid ≡ true) ↔ (
          (is_active c.issuer.status ≡ true)
          × (mismatched (some (verify_record env.rpc env.config c)) ≡ false)
          × (revoked_on_chain (some (verify_record env.rpc env.config c)) ≡ false)
          × (c.revoked ≡ false)
          × (signature_valid (build_signature_block env.verify_ed25519 c) ≢ some false)))
      × (r.verification_count ≡ c.verification_count + 1)
      × (r.verified_at ≡ some now)
unfolding resolve_credential_reference found_response status_of
reference-valid_iff env now reference ip event db c w e =
    let (to, from) =
      valid_iff c (some (verify_record env.rpc env.config c))
        (signature_valid (build_signature_block env.verify_ed25519 c)) in
    (
      found_answer env now ip event db w c,
      counted db (lookup_log (some c.id) event true (status_of env c) ip now) c.id,
      rw (e, resolve_credential_reference)
          (resolve_found_returns env now ip event db w reference c e),
      (λ t. to (is_valid-eq _ t), λ h. rw (from h) refl),
      refl,
      refl,
    )
