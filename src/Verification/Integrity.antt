-- ===== src/Verification/Integrity.antt =====
-- What the integrity check of an uploaded PDF answers, records and reveals.
use certiva.Prelude.{
  ℕ, Bool, true, false, ◌||◌, ◌≡◌, refl, sym, ap, ◌∙◌, inl, inr, String, Option, none, some, Result,
  ◌===◌, if◌then◌else◌, truthy, or_else, eq_iff, find_first, Bool-cases,
}
use certiva.Registry.{
  Credential, DocumentProof, VerificationStatus, revoked, not_found, integrity_verified,
  document_modified, no_secure_pdf_record,
}
use certiva.Blockchain.Verify.{verify_record}
use certiva.Verification.{Env, Db, revoked_on_chain, count_verification}
use certiva.Verification.Recording.{
  Answers, IsWellFormed, logged, counted, record_verification_missing, record_verification_found,
  Records-logged, Records-counted,
}
use certiva.Verification.SecurePdf.{
  PdfResponse, active_proof, pdf_query, find_referenced, build_secure_pdf_response, pdf_not_found,
  pdf_log, conclude, conclude_without_record, hash_of, compare_document, check_document,
  verify_secure_pdf,
}

-- The verdict that a found credential deserves, as an independent table.
abbrev document_verdict : String → Option DocumentProof → VerificationStatus
document_verdict uploaded none = no_secure_pdf_record
document_verdict uploaded (some p) =
    if p.hash === uploaded then integrity_verified else document_modified

abbrev pub pdf_verdict : Env → String → Option Credential → VerificationStatus
pdf_verdict env uploaded none = not_found
pdf_verdict env uploaded (some c) =
    if c.revoked || revoked_on_chain (some (verify_record env.rpc env.config c))
    then revoked
    else document_verdict uploaded (active_proof c)

none≢some : {c : Credential} → none ≡ some c → ⊥
none≢some e = cc

abbrev pub is_integrity : VerificationStatus → Bool
is_integrity integrity_verified = true
is_integrity _ = false

-- What the response shows of the hashes.
abbrev Reveals : Env → String → Option Credential → PdfResponse → Type 0
Reveals env uploaded none r = (r.document_hash ≡ none) × (r.uploaded_hash ≡ none)
Reveals env uploaded (some c) r =
    if is_integrity r.status
    then (r.document_hash ≡ some uploaded) × (r.uploaded_hash ≡ some uploaded)
    else (r.document_hash ≡ none) × (r.uploaded_hash ≡ none)

-- A check that is answered and recorded, with the verdict of the table, a match exactly for an
-- intact document, and hashes shown only for a match.
pub record Checks (env : Env) (uploaded : String) (c : Option Credential) (db : Db)
    (call : Result (PdfResponse × Db)) : Type 0 where
  pub answers : Answers (λ r. r.status) (λ r. r.integrity_matched) c db call
  pub verdict : answers.response.status ≡ pdf_verdict env uploaded c
  pub match_is_integrity : answers.response.integrity_matched ≡ is_integrity answers.response.status
  pub reveals : Reveals env uploaded c answers.response

module _ (env : Env) (now : ℕ) (ip : String) (db : Db) (w : IsWellFormed db) (reference : String)
    (c : Credential) (found : find_first (pdf_query reference) db.credentials ≡ some c)
    (uploaded shown : String) where
  conclude-Checks :
      (registered : Option String) (m : Bool) (s : VerificationStatus)
      → s ≡ pdf_verdict env uploaded (some c)
      → m ≡ is_integrity s
      → (m ≡ true → registered ≡ some uploaded)
      → Checks env uploaded (some c) db (conclude env now ip db c uploaded shown registered m s)
  unfolding conclude build_secure_pdf_response
  conclude-Checks registered m s e f g =
      let log = pdf_log (some c.id) m s uploaded ip now in
      record {
        answers = record {
          response =
              build_secure_pdf_response (count_verification now c)
                (verify_record env.rpc env.config c) now uploaded registered m s shown;
          after = counted db log c.id;
          log = log;
          returns = rw (record_verification_found db log (pdf_query reference) c w found refl) refl;
          records = Records-counted db log (pdf_query reference) c w found refl;
          matched = refl;
          same_verdict = refl;
        };
        verdict = e;
        match_is_integrity = f;
        reveals = shown_if_matched registered m s f g;
      }
    where
      shown_if_matched :
          (registered : Option String) (m : Bool) (s : VerificationStatus)
          → m ≡ is_integrity s
          → (m ≡ true → registered ≡ some uploaded)
          → (if is_integrity s
              then ((if m then registered else none) ≡ some uploaded)
                × ((if m then some uploaded else none) ≡ some uploaded)
              else ((if m then registered else none) ≡ none)
                × ((if m then some uploaded else none) ≡ none))
      shown_if_matched registered true s f g = rw (← f) (g refl, refl)
      shown_if_matched registered false s f g = rw (← f) (refl, refl)

  without_record-Checks :
      pdf_verdict env uploaded (some c) ≡ no_secure_pdf_record
      → Checks env uploaded (some c) db (conclude_without_record env now ip db c uploaded shown)
  unfolding conclude_without_record build_secure_pdf_response
  without_record-Checks e =
      let log = pdf_log (some c.id) false no_secure_pdf_record uploaded ip now in
      record {
        answers = record {
          response =
              build_secure_pdf_response c (verify_record env.rpc env.config c) now uploaded none
                false no_secure_pdf_record shown;
          after = counted db log c.id;
          log = log;
          returns = rw (record_verification_found db log (pdf_query reference) c w found refl) refl;
          records = Records-counted db log (pdf_query reference) c w found refl;
          matched = refl;
          same_verdict = refl;
        };
        verdict = sym e;
        match_is_integrity = refl;
        reveals = (refl, refl);
      }

  -- The verdict's table once the credential is known not to be revoked.
  unrevoked_verdict :
      (o : Option DocumentProof)
      → (c.revoked || revoked_on_chain (some (verify_record env.rpc env.config c))) ≡ false
      → active_proof c ≡ o
      → pdf_verdict env uploaded (some c) ≡ document_verdict uploaded o
  unrevoked_verdict o n e =
      let table : Bool → VerificationStatus =
        λ b. if b then revoked else document_verdict uploaded (active_proof c) in
      ap table n ∙ ap (document_verdict uploaded) e

  compare-Checks :
      (o : Option DocumentProof)
      → (c.revoked || revoked_on_chain (some (verify_record env.rpc env.config c))) ≡ false
      → active_proof c ≡ o
      → Checks env uploaded (some c) db (compare_document env now ip db c uploaded shown o)
  unfolding compare_document
  compare-Checks none n e = without_record-Checks (unrevoked_verdict none n e)
  compare-Checks (some p) n e = elim (Bool-cases (p.hash === uploaded)) [
    | inl t ↦
        let intact : VerificationStatus → VerificationStatus → Bool → VerificationStatus =
          λ a b h. if h then a else b in
        rw t (
          conclude-Checks (some p.hash) true integrity_verified
            (sym
              (unrevoked_verdict (some p) n e ∙ ap (intact integrity_verified document_modified) t))
            refl (λ _. ap some ((eq_iff p.hash uploaded).0 t)))
    | inr f ↦
        let intact : VerificationStatus → VerificationStatus → Bool → VerificationStatus =
          λ a b h. if h then a else b in
        rw f (
          conclude-Checks (some p.hash) false document_modified
            (sym
              (unrevoked_verdict (some p) n e ∙ ap (intact integrity_verified document_modified) f))
            refl (λ h. cc))
  ]

module _ (env : Env) (now : ℕ) (ip : String) (db : Db) (w : IsWellFormed db)
    (uploaded : String) where
  missing-Checks :
      (reference : Option String)
      → Checks env uploaded none db (check_document env now ip db uploaded reference none)
  unfolding check_document pdf_not_found
  missing-Checks reference =
      let log = pdf_log none false not_found uploaded ip now in
      record {
        answers = record {
          response = pdf_not_found reference;
          after = logged db log;
          log = log;
          returns = rw (record_verification_missing db log refl) refl;
          records = Records-logged db log w refl;
          matched = refl;
          same_verdict = refl;
        };
        verdict = refl;
        match_is_integrity = refl;
        reveals = (refl, refl);
      }

  found-Checks :
      (key : String) (reference : Option String) (c : Credential)
      → find_first (pdf_query key) db.credentials ≡ some c
      → Checks env uploaded (some c) db (check_document env now ip db uploaded reference (some c))
  unfolding check_document
  found-Checks key reference c e =
      let shown = or_else reference c.verification_id in
      elim (Bool-cases
        (c.revoked || revoked_on_chain (some (verify_record env.rpc env.config c)))) [
          | inl t ↦
              let table : Bool → VerificationStatus =
                λ b. if b then revoked else document_verdict uploaded (active_proof c) in
              rw t (
                conclude-Checks env now ip db w key c e uploaded shown (hash_of (active_proof c))
                  false revoked (sym (ap table t)) refl (λ h. cc))
          | inr f ↦
              rw f (compare-Checks env now ip db w key c e uploaded shown (active_proof c) f refl)
        ]

  referenced-Checks :
      (reference : Option String) (c : Option Credential)
      → find_referenced reference db ≡ c
      → Checks env uploaded c db (check_document env now ip db uploaded reference c)
  unfolding find_referenced
  referenced-Checks reference none e = missing-Checks reference
  referenced-Checks none (some c) e = cc
  referenced-Checks (some key) (some c) e = elim (Bool-cases (truthy (some key))) [
    | inl t ↦ found-Checks key (some key) c (rw t at e)
    | inr f ↦ absurd (none≢some (rw f at e))
  ]

-- In a registry whose ids are distinct and not empty, the integrity check of an uploaded PDF
-- always answers: the verdict is NOT_FOUND without a live credential of that reference, REVOKED
-- if the row or the chain has it revoked, and otherwise compares the upload's hash with the
-- newest active PDF. The verdict and the match are logged and the credential found is counted.
-- It matches exactly when the verdict is INTEGRITY_VERIFIED; then both hashes are shown and
-- equal the upload's, and on every other verdict neither is.
pub verify_secure_pdf-Checks :
    (env : Env) (now : ℕ) (buffer : String) (reference : Option String) (ip : String) (db : Db)
    → IsWellFormed db
    → Checks env
        (env.hash_buffer buffer)
        (find_referenced reference db)
        db
        (verify_secure_pdf env now buffer reference ip db)
unfolding verify_secure_pdf
verify_secure_pdf-Checks env now buffer reference ip db w =
    referenced-Checks env now ip db w (env.hash_buffer buffer) reference _ refl
