-- ===== src/Signing/Rotation.antt =====
-- What a rotation of a signing key in apps/api/src/common/signing/signing-key.service.ts does to the
-- keys of all institutions, seen as a map from an institution to the key it signs with and as the list
-- of the keys that verifiers know.
use certiva.Prelude.{
  ℕ, Bool, true, false, ◌≡◌, ◌≢◌, refl, ap, ◌∙◌, inl, inr, String, Option, some, List, [], ◌∷◌,
  Result, ok, err, ◌===◌, Bool-cases, if◌then◌else◌, filter_by, update_where, any_of, map, arith,
  eq_iff, eq_refl,
}
use certiva.Audit.Chain.{Ending, committed, refused, rolled_back, AuditDb, write_entry}
use certiva.Signing.{
  IssuerSigningKey, AuditContext, Keyring, KeyTools, is_current, active_key, key_data,
  build_key_data, shares_key_id, found_or_created, get_or_create_active_key, retired_row,
  retired_ids, end_rotation, rotated, rotated_event, rotate_active_key,
}

-- What a verifier has of a key: its id, its bytes and its institution.
abbrev pub published : IssuerSigningKey → String × String × String
published k = (k.key_id, k.public_key, k.issuer_id)

module _ (issuer_id : String) (now : ℕ) where
  retired-none :
      (keys : List IssuerSigningKey)
      → filter_by
          (is_current issuer_id)
          (update_where (is_current issuer_id) (retired_row now) keys)
        ≡ []
  unfolding is_current retired_row
  retired-none [] = refl
  retired-none (k ∷ keys) = ground (arith, retired-none keys)

  retired-published :
      (keys : List IssuerSigningKey)
      → map published (update_where (is_current issuer_id) (retired_row now) keys)
        ≡ map published keys
  unfolding retired_row
  retired-published [] = refl
  retired-published (k ∷ keys) = elim (Bool-cases (is_current issuer_id k)) [
    | inl t ↦ simp t (ap (◌∷◌ (published k)) (retired-published keys))
    | inr n ↦ simp n (ap (◌∷◌ (published k)) (retired-published keys))
  ]

  retired-others :
      (other : String) (keys : List IssuerSigningKey)
      → other ≢ issuer_id
      → active_key other (update_where (is_current issuer_id) (retired_row now) keys)
        ≡ active_key other keys
  unfolding is_current retired_row
  retired-others other [] n = refl
  retired-others other (k ∷ keys) n = ground (
    arith,
    retired-others other keys n,
    n,
    eq_iff k.issuer_id other,
    eq_iff k.issuer_id issuer_id,
  )

-- The map that a rotation refines: the institution signs with the new key, all others with theirs.
abbrev pub re_keyed :
    String
    → IssuerSigningKey
    → (String → Option IssuerSigningKey)
    → String
    → Option IssuerSigningKey
re_keyed issuer_id k current j = if j === issuer_id then some k else current j

-- What a rotation did.
abbrev pub Rotates :
    KeyTools
    → String
    → AuditContext
    → Keyring
    → Result (IssuerSigningKey × List String) × Keyring
    → Type 0
Rotates t issuer_id context s (err m, u) = u.keys ≡ s.keys
Rotates t issuer_id context s (ok (k, retired), u) =
    ((j : String) → active_key j u.keys ≡ re_keyed issuer_id k (λ i. active_key i s.keys) j)
    × (filter_by (is_current issuer_id) u.keys ≡ k ∷ [])
    × (retired ≡ retired_ids issuer_id s.keys)
    × (map published u.keys ≡ published k ∷ map published s.keys)
    × (u.audit ≡ write_entry t.builtins t.now (rotated_event k retired context) s.audit)
    × ((t' : KeyTools) → get_or_create_active_key t' issuer_id u ≡ (ok k, u))

module _ (t : KeyTools) (issuer_id : String) (context : AuditContext) (s : Keyring) where
  -- A new key of the institution, before the keys that have been retired.
  module _ (new : IssuerSigningKey) (usable : is_current issuer_id new ≡ true)
      (own : new.issuer_id ≡ issuer_id) where
    abbrev after_rotation : List IssuerSigningKey
    after_rotation = new ∷ update_where (is_current issuer_id) (retired_row t.now) s.keys

    rotation_re-keys :
        (j : String)
        → active_key j after_rotation ≡ re_keyed issuer_id new (λ i. active_key i s.keys) j
    rotation_re-keys j = elim (Bool-cases (j === issuer_id)) [
      | inl t' ↦
          let same : j ≡ issuer_id = (eq_iff j issuer_id).0 t' in
          rw t' (rw (ap (λ (i : String). is_current i new) same ∙ usable) refl)
      | inr n ↦
          let differs : j ≢ issuer_id = ground (arith, n, eq_iff j issuer_id) in
          rw n (rw (other_key j differs) (retired-others issuer_id t.now j s.keys differs))
    ]
      where
        other_key : (j : String) → j ≢ issuer_id → is_current j new ≡ false
        other_key j d = unfold is_current in ground (arith, own, d, eq_iff new.issuer_id j)

    rotation-single : filter_by (is_current issuer_id) after_rotation ≡ new ∷ []
    rotation-single = rw usable (ap (◌∷◌ new) (retired-none issuer_id t.now s.keys))

    rotation-found :
        (t' : KeyTools) (audit : AuditDb)
        → let u : Keyring = record { keys = after_rotation; audit = audit } in
          get_or_create_active_key t' issuer_id u ≡ (ok new, u)
    unfolding get_or_create_active_key found_or_created
    rotation-found t' audit = rw usable refl

  key_data-own :
      (r : Result (String × String)) (new : IssuerSigningKey)
      → key_data t issuer_id r ≡ ok new
      → (is_current issuer_id new ≡ true) × (new.issuer_id ≡ issuer_id)
  unfolding key_data is_current
  key_data-own (err m) new e = cc
  key_data-own (ok (p, stored)) new e = ground (arith, e, eq_refl issuer_id)

  either-Rotates :
      (b : Bool) (x y : Result (IssuerSigningKey × List String) × Keyring)
      → Rotates t issuer_id context s x
      → Rotates t issuer_id context s y
      → Rotates t issuer_id context s (if b then x else y)
  either-Rotates true x y h k = h
  either-Rotates false x y h k = k

  ended-Rotates :
      (new : IssuerSigningKey) (ending : Ending)
      → is_current issuer_id new ≡ true
      → new.issuer_id ≡ issuer_id
      → Rotates t issuer_id context s (end_rotation t issuer_id context new ending s)
  unfolding end_rotation
  ended-Rotates new refused usable own = refl
  ended-Rotates new rolled_back usable own = refl
  ended-Rotates new committed usable own = (
    rotation_re-keys new usable own,
    rotation-single new usable own,
    refl,
    ap (◌∷◌ (published new)) (retired-published issuer_id t.now s.keys),
    refl,
    λ t'. rotation-found new usable own t' _,
  )

  rotated-Rotates :
      (r : Result IssuerSigningKey)
      → build_key_data t issuer_id ≡ r
      → Rotates t issuer_id context s (rotated t issuer_id context r s)
  unfolding rotated build_key_data
  rotated-Rotates (err m) e = refl
  rotated-Rotates (ok new) e =
      let (usable, own) = key_data-own t.generate_key_pair new e in
      either-Rotates (any_of (shares_key_id new) s.keys) _ _ refl
        (ended-Rotates new t.audit_ends usable own)

-- A rotation that succeeds refines an update of the map from institutions to their signing keys: the
-- institution has the new key and it alone, every other institution signs as before, and the next
-- signing takes the new key without making one. The keys that were active are the ones it names as
-- retired, no key is lost to verifiers, and the audit log has the entry. A rotation that fails leaves
-- all keys as they were, also when only its audit entry could not be written.
pub rotate-Rotates :
    (t : KeyTools) (issuer_id : String) (context : AuditContext) (s : Keyring)
    → Rotates t issuer_id context s (rotate_active_key t issuer_id context s)
unfolding rotate_active_key
rotate-Rotates t issuer_id context s = rotated-Rotates t issuer_id context s _ refl
