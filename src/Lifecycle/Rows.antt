-- ===== src/Lifecycle/Rows.antt =====
-- What the credential service never does to the table of credentials, and when the table is sound.
pub mod Update
pub mod Registered
pub mod Within
use certiva.Prelude.{
  ◌⊎◌, ℕ, Bool, true, false, not, ◌&&◌, ◌||◌, ◌≡◌, ◌≢◌, refl, sym, ap, subst, ◌∙◌, inl, inr, String,
  Option, none, some, List, [], ◌∷◌, ◌++◌, ◌===◌, Bool-cases, if◌then◌else◌, find_first,
  update_where, any_of, All, is_some, arith, eq_iff, eq_refl, All-append,
}
use certiva.Registry.{Credential, SigningKey}
use certiva.Anchoring.{has_id}
use certiva.Lifecycle.Issue.{shares_unique, shares_live_key, is_live}

-- The columns that are written once: identity, content, hashes, signature and document.
pub record Fixed : Type 0 where
  pub id : String
  pub credential_external_id : String
  pub verification_id : String
  pub verification_code : String
  pub signed_verification_token : String
  pub student_name : String
  pub student_id : String
  pub degree : String
  pub graduation_year : Option ℕ
  pub hash : String
  pub registry_hash : String
  pub public_payload : Option String
  pub signature : Option String
  pub signature_algorithm : Option String
  pub signed_at : Option ℕ
  pub signing_key : Option SigningKey
  pub vc_proof_value : Option String
  pub vc_document : Option String
  pub issued_at : ℕ
  pub issuer_id : String
  pub batch_id : Option String

abbrev pub fixed : Credential → Fixed
fixed c = record {
  id = c.id;
  credential_external_id = c.credential_external_id;
  verification_id = c.verification_id;
  verification_code = c.verification_code;
  signed_verification_token = c.signed_verification_token;
  student_name = c.student_name;
  student_id = c.student_id;
  degree = c.degree;
  graduation_year = c.graduation_year;
  hash = c.hash;
  registry_hash = c.registry_hash;
  public_payload = c.public_payload;
  signature = c.signature;
  signature_algorithm = c.signature_algorithm;
  signed_at = c.signed_at;
  signing_key = c.signing_key;
  vc_proof_value = c.vc_proof_value;
  vc_document = c.vc_document;
  issued_at = c.issued_at;
  issuer_id = c.issuer.id;
  batch_id = c.batch_id;
}

-- The hashes of the document and of the proof on chain: as they were, or replaced together by the hash
-- of one registered document.
abbrev pub HashesKept : Credential → Credential → Type 0
HashesKept c d =
    ((d.document_hash ≡ c.document_hash) × (d.chain_proof_hash ≡ c.chain_proof_hash))
    ⊎ (d.document_hash ≡ some d.chain_proof_hash)

HashesKept-trans : (c d e : Credential) → HashesKept c d → HashesKept d e → HashesKept c e
HashesKept-trans c d e (inl (p, q)) (inl (r, s)) = inl (r ∙ p, s ∙ q)
HashesKept-trans c d e (inr h) (inl (r, s)) = inr (r ∙ h ∙ ap some (sym s))
HashesKept-trans c d e h (inr k) = inr k

-- A row and what has become of it: what is written once is as it was, its hashes are kept or replaced
-- together, and neither a revocation nor a deletion is undone.
pub record Kept (c d : Credential) : Type 0 where
  pub same : fixed d ≡ fixed c
  pub hashes : HashesKept c d
  pub stays_revoked : c.revoked ≡ true → d.revoked ≡ true
  pub stays_deleted : is_some c.deleted_at ≡ true → is_some d.deleted_at ≡ true

pub Kept-refl : (c : Credential) → Kept c c
Kept-refl c = record {
  same = refl;
  hashes = inl (refl, refl);
  stays_revoked = λ h. h;
  stays_deleted = λ h. h;
}

pub Kept-trans : (c d e : Credential) → Kept c d → Kept d e → Kept c e
Kept-trans c d e h k = record {
  same = k.same ∙ h.same;
  hashes = HashesKept-trans c d e h.hashes k.hashes;
  stays_revoked = λ x. k.stays_revoked (h.stays_revoked x);
  stays_deleted = λ x. k.stays_deleted (h.stays_deleted x);
}

-- The rows of a table are kept, in their order; new rows may follow.
abbrev pub Extends : List Credential → List Credential → Type 0
Extends [] ys = Unit
Extends (c ∷ xs) [] = ⊥
Extends (c ∷ xs) (d ∷ ys) = Kept c d × Extends xs ys

pub Extends-refl : (xs : List Credential) → Extends xs xs
Extends-refl [] = tt
Extends-refl (c ∷ xs) = (Kept-refl c, Extends-refl xs)

pub Extends-append : (xs ys : List Credential) → Extends xs (xs ++ ys)
Extends-append [] ys = tt
Extends-append (c ∷ xs) ys = (Kept-refl c, Extends-append xs ys)

pub Extends-trans : (xs ys zs : List Credential) → Extends xs ys → Extends ys zs → Extends xs zs
Extends-trans [] ys zs h k = tt
Extends-trans (c ∷ xs) [] zs h k = absurd h
Extends-trans (c ∷ xs) (d ∷ ys) [] h k = absurd k
Extends-trans (c ∷ xs) (d ∷ ys) (e ∷ zs) (p, h) (q, k) =
    (Kept-trans c d e p q, Extends-trans xs ys zs h k)

-- Only revoked credentials are deleted.
abbrev pub IsOrderly : Credential → Type 0
IsOrderly c = is_some c.deleted_at ≡ true → c.revoked ≡ true

-- Two rows of a table: their ids differ, and they are not both live for one institution, student
-- and degree.
pub record Apart (c d : Credential) : Type 0 where
  pub ids : c.id ≢ d.id
  pub keys :
      is_live c ≡ true
      → is_live d ≡ true
      → c.issuer.id ≡ d.issuer.id
      → c.student_id ≡ d.student_id
      → c.degree ≢ d.degree

abbrev pub Pairwise : List Credential → Type 0
Pairwise [] = Unit
Pairwise (c ∷ xs) = All (Apart c) xs × Pairwise xs

pub record IsSound (xs : List Credential) : Type 0 where
  pub orderly : All IsOrderly xs
  pub pairwise : Pairwise xs

pub Kept-live : (c d : Credential) → Kept c d → is_live d ≡ true → is_live c ≡ true
Kept-live c d k h =
    lived c.revoked d.revoked (is_some c.deleted_at) (is_some d.deleted_at) k.stays_revoked
      k.stays_deleted h
  where
    lived :
        (r r' x x' : Bool)
        → (r ≡ true → r' ≡ true)
        → (x ≡ true → x' ≡ true)
        → (not x' && not r') ≡ true
        → (not x && not r) ≡ true
    lived true true x x' f g h = ground arith
    lived true false x x' f g h = cc (f refl)
    lived false r' true true f g h = ground arith
    lived false r' true false f g h = cc (g refl)
    lived false r' false x' f g h = refl

pub Kept-Apart : (c c' d d' : Credential) → Kept c c' → Kept d d' → Apart c d → Apart c' d'
Kept-Apart c c' d d' h k a = record {
  ids = λ e. a.ids (sym (ap id_of h.same) ∙ e ∙ ap id_of k.same);
  keys = λ l m i s g.
      a.keys (Kept-live c c' h l) (Kept-live d d' k m)
        (sym (ap issuer_of h.same) ∙ i ∙ ap issuer_of k.same)
        (sym (ap student_of h.same) ∙ s ∙ ap student_of k.same)
        (sym (ap degree_of h.same) ∙ g ∙ ap degree_of k.same);
}
  where
    id_of : Fixed → String
    id_of f = f.id

    issuer_of : Fixed → String
    issuer_of f = f.issuer_id

    student_of : Fixed → String
    student_of f = f.student_id

    degree_of : Fixed → String
    degree_of f = f.degree
