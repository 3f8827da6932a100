-- ===== src/Lifecycle/Revocation/Columns.antt =====
-- What `revoke` of apps/api/src/modules/credential/credential.service.ts writes on the credential, column by
-- column, apart from how the code builds it.
use mathlib.Core.Option.{some-injective}
use certiva.Prelude.{
  List, [], ◌∷◌, ℕ, Bool-cases, arith, ◌===◌, if◌then◌else◌, true, ◌≡◌, refl, String, some, none,
  List, find_first, inl, inr, Option, ap,
}
use certiva.Text.{trim}
use certiva.Institution.{trimmed}
use certiva.Registry.{Credential}
use certiva.Auth.{JwtPayload}
use certiva.Anchoring.{has_id}
use certiva.Lifecycle.{AssetBundle, is_visible}
use certiva.Lifecycle.Revoke.{RevokeCredentialDto, revoked_row}

-- The notes that are kept: trimmed, and none if nothing is left.
abbrev pub kept_notes : Option String → Option String
kept_notes none = none
kept_notes (some notes) = if trim notes === "" then none else some (trim notes)

-- What a revocation makes of a row, column by column.
abbrev pub revocation : ℕ → JwtPayload → RevokeCredentialDto → Credential → Credential
revocation now admin dto c = record c {
  revoked = true;
  revoked_at = some now;
  revoked_by = some admin.email;
  revoked_by_admin_id = some admin.sub;
  revocation_reason = some dto.reason;
  revocation_notes = kept_notes dto.notes;
}

-- And the columns of its metadata, once they have been stored again.
abbrev pub republished : AssetBundle → Credential → Credential
republished bundle c = record c {
  metadata_uri = bundle.metadata_uri;
  metadata_json = bundle.metadata_json;
  verification_url = bundle.verification_url;
}

trimmed-kept : (notes : Option String) → trimmed notes ≡ kept_notes notes
unfolding trimmed
trimmed-kept none = refl
trimmed-kept (some notes) = elim (Bool-cases (trim notes === "")) [
  | inl t ↦ simp t refl
  | inr n ↦ simp n refl
]

pub revoked-row :
    (now : ℕ) (admin : JwtPayload) (dto : RevokeCredentialDto) (c : Credential)
    → revoked_row now admin dto c ≡ revocation now admin dto c
unfolding revoked_row
revoked-row now admin dto c =
    ap (λ (notes : Option String). record (revocation now admin dto c) { revocation_notes = notes })
      (trimmed-kept dto.notes)

-- A row that is not deleted is found by the query that leaves deleted rows out.
pub visible_found :
    (id : String) (xs : List Credential) (d : Credential)
    → find_first (has_id id) xs ≡ some d
    → d.deleted_at ≡ none
    → find_first (is_visible id) xs ≡ some d
unfolding has_id
visible_found id [] d e n = cc
visible_found id (x ∷ xs) d e n = elim (Bool-cases (x.id === id)) [
  | inl t ↦ let same : x ≡ d = some-injective x d (rw t at e) in ground (arith, t, same, n)
  | inr m ↦ simp m (visible_found id xs d (simp m at e) n)
]
