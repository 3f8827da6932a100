-- ===== src/Lifecycle/Securing.antt =====
-- Registering a secure PDF loses no row and undoes nothing, whatever it returns or throws.
use certiva.Prelude.{
  ℕ, refl, inl, inr, String, Option, none, some, ◌===◌, Bool-cases, find_first, any_of,
}
use certiva.Registry.{Credential}
use certiva.Auth.{JwtPayload}
use certiva.Anchoring.{has_id}
use certiva.Lifecycle.{Registrar, M, ◌>>=◌, ◌>>◌, Tools, rows, UploadedFile}
use certiva.Lifecycle.Rows.{Kept, IsOrderly, IsSound}
use certiva.Lifecycle.Rows.Update.{All-IsOrderly}
use certiva.Lifecycle.Growth.{Grows, Grows-refl}
use certiva.Lifecycle.Rules.{
  found-then, check-then, call-then, access-then, update_credential-Grows,
}
use certiva.Registry.{IssuanceBatch}
use certiva.Lifecycle.SecurePdf.{
  secured_row, hash_taken, register_document_proof, required_reference, check_reference,
  register_secure_pdf, register_batch_secure_pdf, find_batch, required_batch, has_batch_id,
}

secured-Kept :
    (now : ℕ) (by : String) (file : UploadedFile) (hash : String) (c : Credential)
    → Kept c (secured_row now by file hash c)
unfolding secured_row
secured-Kept now by file hash c = record {
  same = refl;
  hashes = inr refl;
  stays_revoked = λ h. h;
  stays_deleted = λ h. h;
}

secured-IsOrderly :
    (now : ℕ) (by : String) (file : UploadedFile) (hash : String) (c : Credential)
    → IsOrderly c
    → IsOrderly (secured_row now by file hash c)
unfolding secured_row
secured-IsOrderly now by file hash c o = o

pub proof-Grows :
    (t : Tools) (id : String) (file : UploadedFile) (by : String) (s : Registrar)
    → IsSound (rows s)
    → Grows s (register_document_proof t id file by s).1
unfolding register_document_proof
proof-Grows t id file by s h =
    let hash = t.hash_buffer file.buffer in
    let f = secured_row t.now by file hash in
    elim (Bool-cases (any_of (hash_taken id hash) (rows s))) [
      | inl taken ↦ simp taken (Grows-refl s h)
      | inr free ↦ simp free (
          update_credential-Grows s h id f (secured-Kept t.now by file hash)
            (All-IsOrderly (has_id id) f (rows s) (secured-IsOrderly t.now by file hash) h.orderly))
    ]

reference-Grows :
    (o : Option String) (k : String → M (Unit {0})) (s : Registrar)
    → IsSound (rows s)
    → ((r : String) → Grows s (k r s).1)
    → Grows s ((required_reference o >>= k) s).1
reference-Grows none k s h next = Grows-refl s h
reference-Grows (some r) k s h next = elim (Bool-cases (r === "")) [
  | inl e ↦ simp e (Grows-refl s h)
  | inr n ↦ simp n (next r)
]

checked-Grows :
    (id reference : String) (k : M (Unit {0})) (s : Registrar)
    → IsSound (rows s)
    → Grows s (k s).1
    → Grows s ((check_reference id reference >> k) s).1
unfolding check_reference
checked-Grows id reference k s h next = check-then s h _ _ k (λ _. next)

pub register_secure_pdf-Grows :
    (t : Tools) (admin : JwtPayload) (id : String) (file : UploadedFile) (s : Registrar)
    → IsSound (rows s)
    → Grows s (register_secure_pdf t admin id file s).1
unfolding register_secure_pdf
register_secure_pdf-Grows t admin id file s h = found-then s h id _ (λ c found.
    access-then s h t.setting admin c.issuer.id _ (λ u i same.
      call-then u i (t.prepare_uploaded_pdf file) _ (λ _.
        call-then u i (t.extract_reference file.buffer) _ (λ o.
          reference-Grows o _ u i
            (λ r. checked-Grows c.id r _ u i (proof-Grows t c.id file admin.email u i))))))

batch-Grows :
    (o : Option IssuanceBatch) (k : IssuanceBatch → M (Unit {0})) (s : Registrar)
    → IsSound (rows s)
    → ((b : IssuanceBatch) → Grows s (k b s).1)
    → Grows s ((required_batch o >>= k) s).1
unfolding required_batch
batch-Grows none k s h next = Grows-refl s h
batch-Grows (some b) k s h next = next b

pub register_batch-Grows :
    (t : Tools) (admin : JwtPayload) (batch_id : String) (s : Registrar)
    → IsSound (rows s)
    → Grows s (register_batch_secure_pdf t admin batch_id s).1
unfolding register_batch_secure_pdf find_batch
register_batch-Grows t admin batch_id s h =
    batch-Grows (find_first (has_batch_id batch_id) s.batches) _ s h
      (λ b. access-then s h t.setting admin b.issuer_id _ (λ u i same. Grows-refl u i))
