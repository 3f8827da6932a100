-- ===== src/Blockchain/Vouching.antt =====
-- When the chain vouches for a stored credential, and what a revocation on chain turns into.
use certiva.Prelude.{
  Bool, true, false, ◌≡◌, refl, ◌↔◌, inl, inr, sym, Option, none, some, Result, ok, err, ◌===◌,
  arith, eq_iff, >>=-eq-ok, Bool-cases, String, ◌∙◌, ap,
}
use certiva.Registry.{Credential}
use certiva.Blockchain.{
  mismatch, unavailable, Rpc, Config, ProofRecord, VerificationResult, to_bytes32_proof_hash,
  is_configured, read_proof,
}
use certiva.Blockchain.Verify.{
  verify_without_proof, issuer_matches, is_verified, proof_status, verify_with_proof, verify_proof,
  verify_record, Vouches, with_proof,
}

module _ (rpc : Rpc) (cfg : Config) (c : Credential) where
  -- One evaluation of `verify_record` for each way in which the reads can end.
  verify_record_unconfigured :
      is_configured cfg ≡ false → (verify_record rpc cfg c).blockchain_verified ≡ false
  unfolding verify_record
  verify_record_unconfigured e = rw e refl

  pub verify_record_err :
      (m : String)
      → is_configured cfg ≡ true
      → read_proof rpc cfg c.id ≡ err m
      → ((verify_record rpc cfg c).blockchain_status ≡ unavailable)
        × ((verify_record rpc cfg c).blockchain_verified ≡ false)
        × ((verify_record rpc cfg c).proof ≡ none)
  unfolding verify_record
  verify_record_err m e r = rw (e, r) (refl, refl, refl)

  pub verify_record_ok :
      (o : Option ProofRecord) (v : VerificationResult)
      → is_configured cfg ≡ true
      → read_proof rpc cfg c.id ≡ ok o
      → verify_proof rpc c o ≡ ok v
      → verify_record rpc cfg c ≡ v
  unfolding verify_record
  verify_record_ok o v e r p = rw (e, r, p) refl

  pub verify_with_proof_ok :
      (proof : ProofRecord) (b : Bool) (h : String)
      → issuer_matches rpc c.issuer.wallet proof ≡ ok b
      → to_bytes32_proof_hash c.chain_proof_hash ≡ ok h
      → verify_with_proof rpc c proof
        ≡ ok (with_proof c (is_verified b (proof.document_hash === h) proof) proof)
  unfolding verify_with_proof
  verify_with_proof_ok proof b h i p = rw (i, p) refl

  pub verify_proof_exists :
      (proof : ProofRecord)
      → proof.exists ≡ true
      → verify_proof rpc c (some proof) ≡ verify_with_proof rpc c proof
  unfolding verify_proof
  verify_proof_exists proof e = ground arith

  is_verified_of :
      (proof : ProofRecord)
      → proof.issuer_authorized ≡ true
      → proof.revoked ≡ false
      → is_verified true (proof.document_hash === proof.document_hash) proof ≡ true
  unfolding is_verified
  is_verified_of proof a n = ground (arith, eq_iff proof.document_hash proof.document_hash)

  Vouches-verified :
      (proof : ProofRecord)
      → Vouches rpc cfg c proof
      → verify_record rpc cfg c ≡ with_proof c true proof
  Vouches-verified proof v =
      verify_record_ok (some proof) (with_proof c true proof) v.configured v.read (
        verify_proof_exists proof v.exists
        ∙ verify_with_proof_ok proof true proof.document_hash v.issuer v.hash
        ∙ ap (λ b. ok (with_proof c b proof)) (is_verified_of proof v.authorized v.not_revoked))

  -- Inside the try block: a verified result comes from a proof that vouches.
  verify_with_proof_verified :
      (proof : ProofRecord) (v : VerificationResult)
      → verify_with_proof rpc c proof ≡ ok v
      → v.blockchain_verified ≡ true
      → (issuer_matches rpc c.issuer.wallet proof ≡ ok true)
        × (to_bytes32_proof_hash c.chain_proof_hash ≡ ok proof.document_hash)
        × (proof.issuer_authorized ≡ true)
        × (proof.revoked ≡ false)
  unfolding verify_with_proof with_proof is_verified
  verify_with_proof_verified proof v e t =
      let (b, i, e') = >>=-eq-ok (issuer_matches rpc c.issuer.wallet proof) _ e in
      let (h, p, e'') = >>=-eq-ok (to_bytes32_proof_hash c.chain_proof_hash) _ e' in
      ground (arith, i, p, e'', t, eq_iff proof.document_hash h)

  verify_proof_verified :
      (o : Option ProofRecord) (v : VerificationResult)
      → is_configured cfg ≡ true
      → read_proof rpc cfg c.id ≡ ok o
      → verify_proof rpc c o ≡ ok v
      → v.blockchain_verified ≡ true
      → (proof : ProofRecord) × Vouches rpc cfg c proof
  unfolding verify_proof verify_without_proof
  verify_proof_verified none v g r e t = ground arith
  verify_proof_verified (some proof) v g r e t = elim (Bool-cases proof.exists) [
    | inl x ↦
        let (i, h, a, n) =
          verify_with_proof_verified proof v (sym (verify_proof_exists proof x) ∙ e) t in
        (
          proof,
          record {
            configured = g;
            read = r;
            exists = x;
            issuer = i;
            hash = h;
            authorized = a;
            not_revoked = n;
          },
        )
    | inr x ↦ absurd (ground arith)
  ]

  -- A read that returned leads to a result or an error, and only a result is passed on.
  verify_record_read :
      (o : Option ProofRecord) (r : Result VerificationResult)
      → is_configured cfg ≡ true
      → read_proof rpc cfg c.id ≡ ok o
      → verify_proof rpc c o ≡ r
      → (verify_record rpc cfg c).blockchain_verified ≡ true
      → (v : VerificationResult) × (r ≡ ok v) × (v.blockchain_verified ≡ true)
  unfolding verify_record
  verify_record_read o (ok v) e r p t = (v, refl, rw (e, r, p) at t)
  verify_record_read o (err m) e r p t = cc (rw (e, r, p) at t)

  vouching_proof :
      (r : Result (Option ProofRecord))
      → is_configured cfg ≡ true
      → read_proof rpc cfg c.id ≡ r
      → (verify_record rpc cfg c).blockchain_verified ≡ true
      → (proof : ProofRecord) × Vouches rpc cfg c proof
  vouching_proof (ok o) e r t =
      let (v, p, t') = verify_record_read o (verify_proof rpc c o) e r refl t in
      verify_proof_verified o v e r p t'
  vouching_proof (err m) e r t = cc ((verify_record_err m e r).1)

-- The API reports a credential as verified on chain exactly when the blockchain is configured and
-- the proof read back exists, names the issuer's wallet, holds the stored proof hash, was written
-- by an issuer that is still authorised and is not revoked; every failing read counts against it.
pub verified_iff :
    (rpc : Rpc) (cfg : Config) (c : Credential)
    → ((verify_record rpc cfg c).blockchain_verified ≡ true)
      ↔ ((proof : ProofRecord) × Vouches rpc cfg c proof)
unfolding with_proof
verified_iff rpc cfg c = (
  λ t. elim (Bool-cases (is_configured cfg)) [
    | inl e ↦ vouching_proof rpc cfg c (read_proof rpc cfg c.id) e refl t
    | inr e ↦ cc (verify_record_unconfigured rpc cfg c e)
  ],
  λ (proof, v).
      ap (λ (r : VerificationResult). r.blockchain_verified) (Vouches-verified rpc cfg c proof v),
)

-- A proof that is revoked on chain by an authorised issuer is reported as a mismatch, whatever its
-- hash and its issuer, once the stored wallet and hash are well formed.
pub revoked_proof-mismatch :
    (rpc : Rpc) (cfg : Config) (c : Credential) (proof : ProofRecord) (b : Bool) (h : String)
    → is_configured cfg ≡ true
    → read_proof rpc cfg c.id ≡ ok (some proof)
    → proof.exists ≡ true
    → issuer_matches rpc c.issuer.wallet proof ≡ ok b
    → to_bytes32_proof_hash c.chain_proof_hash ≡ ok h
    → proof.issuer_authorized ≡ true
    → proof.revoked ≡ true
    → ((verify_record rpc cfg c).blockchain_status ≡ mismatch)
      × ((verify_record rpc cfg c).blockchain_verified ≡ false)
      × ((verify_record rpc cfg c).proof ≡ some proof)
unfolding with_proof proof_status is_verified
revoked_proof-mismatch rpc cfg c proof b h e r x i p a v =
    let same : verify_record rpc cfg c
        ≡ with_proof c (is_verified b (proof.document_hash === h) proof) proof =
      verify_record_ok rpc cfg c (some proof) _ e r
        (verify_proof_exists rpc cfg c proof x ∙ verify_with_proof_ok rpc cfg c proof b h i p) in
    ground (arith, same)
