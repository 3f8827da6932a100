-- ===== src/Signing.antt =====
-- apps/api/src/common/signing/signing-key.service.ts: the signing keys of the institutions. The table of
-- keys is in the order of the service's queries, latest first. The provider that makes key pairs, the
-- random draws, the clock and how the write of an audit entry ends are arguments (`KeyTools`).
mod Tests
pub mod Rotation
use certiva.Prelude.{
  ℕ, ◌+◌, Bool, true, false, not, ◌&&◌, String, Option, none, some, List, [], ◌∷◌, Result, ok, err,
  ◌===◌, if◌then◌else◌, find_first, filter_by, update_where, any_of, map, is_some,
}
use certiva.Assets.{◌<>◌}
use certiva.Audit.{
  Builtins, Json, text, array, object, Elements, no_elements, element, no_members, member,
}
use certiva.Audit.Chain
use certiva.Audit.Chain.{
  AuditDb, AuditEventInput, write_entry, Ending, committed, refused, rolled_back,
}

pub record IssuerSigningKey : Type 0 where
  pub id : String
  pub issuer_id : String
  pub key_id : String
  pub public_key : String
  pub private_key_encrypted : String
  pub algorithm : String
  pub created_at : ℕ
  pub revoked_at : Option ℕ
  pub active : Bool

pub record AuditContext : Type 0 where
  pub actor_admin_id : Option String
  pub actor_username : Option String
  pub ip_address : Option String
  pub user_agent : Option String

pub record Keyring : Type 0 where
  pub keys : List IssuerSigningKey
  pub audit : AuditDb

pub record KeyTools : Type 0 where
  pub generate_key_pair : Result (String × String)
  pub algorithm : String
  pub new_id : String
  pub random_hex : String
  pub now : ℕ
  pub builtins : Builtins
  pub audit_ends : Ending

-- WHERE of the queries: { issuerId, active: true, revokedAt: null }
unfoldable pub is_current : String → IssuerSigningKey → Bool
is_current issuer_id k = k.issuer_id === issuer_id && (k.active && not (is_some k.revoked_at))

-- `findFirst` with that clause.
abbrev pub active_key : String → List IssuerSigningKey → Option IssuerSigningKey
active_key issuer_id keys = find_first (is_current issuer_id) keys

key_data : KeyTools → String → Result (String × String) → Result IssuerSigningKey
key_data t issuer_id (err m) = err m
key_data t issuer_id (ok (public_key, stored)) = ok (record {
  id = t.new_id;
  issuer_id = issuer_id;
  key_id = "sk_" <> t.random_hex;
  public_key = public_key;
  private_key_encrypted = stored;
  algorithm = t.algorithm;
  created_at = t.now;
  revoked_at = none;
  active = true;
})

-- `buildKeyData`, with the columns that the database fills in.
unfoldable pub build_key_data : KeyTools → String → Result IssuerSigningKey
unfolding key_data
build_key_data t issuer_id = key_data t issuer_id t.generate_key_pair

-- `keyId` is a unique column.
abbrev pub shares_key_id : IssuerSigningKey → IssuerSigningKey → Bool
shares_key_id new k = k.key_id === new.key_id

abbrev pub generated_event : IssuerSigningKey → AuditEventInput
generated_event k = record {
  action = "SIGNING_KEY_GENERATED";
  actor_admin_id = none;
  actor_username = none;
  target_type = some "IssuerSigningKey";
  target_id = some k.key_id;
  metadata = some (
      object
        (member "issuerId" (text k.issuer_id) (member "algorithm" (text k.algorithm) no_members)));
  ip_address = none;
  user_agent = none;
}

created : KeyTools → Result IssuerSigningKey → Keyring → Result IssuerSigningKey × Keyring
created t (err m) s = (err m, s)
created t (ok new) s = if any_of (shares_key_id new) s.keys then (err "P2002", s) else (
  ok new,
  record {
    keys = new ∷ s.keys;
    audit = Chain.log t.builtins t.audit_ends t.now (generated_event new) s.audit;
  },
)

found_or_created :
    KeyTools → String → Option IssuerSigningKey → Keyring → Result IssuerSigningKey × Keyring
found_or_created t issuer_id (some k) s = (ok k, s)
found_or_created t issuer_id none s = created t (build_key_data t issuer_id) s

-- `getOrCreateActiveKey`
unfoldable pub get_or_create_active_key :
    KeyTools → String → Keyring → Result IssuerSigningKey × Keyring
unfolding found_or_created created build_key_data
get_or_create_active_key t issuer_id s =
    found_or_created t issuer_id (active_key issuer_id s.keys) s

unfoldable pub retired_row : ℕ → IssuerSigningKey → IssuerSigningKey
retired_row now k = record k { active = false; revoked_at = some now }

abbrev pub texts : List String → Elements
texts [] = no_elements
texts (id ∷ ids) = element (text id) (texts ids)

abbrev pub rotated_event : IssuerSigningKey → List String → AuditContext → AuditEventInput
rotated_event k retired context = record {
  action = "SIGNING_KEY_ROTATED";
  actor_admin_id = context.actor_admin_id;
  actor_username = context.actor_username;
  target_type = some "IssuerSigningKey";
  target_id = some k.key_id;
  metadata = some (
      object (
        member "issuerId" (text k.issuer_id) (
          member "algorithm" (text k.algorithm)
            (member "retiredKeyIds" (array (texts retired)) no_members))));
  ip_address = context.ip_address;
  user_agent = context.user_agent;
}

abbrev pub retired_ids : String → List IssuerSigningKey → List String
retired_ids issuer_id keys =
    map (λ (k : IssuerSigningKey). k.key_id) (filter_by (is_current issuer_id) keys)

-- The transaction's end, after the keys: the audit entry is written in it. If it rolls back, the value
-- that the sequence of the audit log may have given stays spent.
end_rotation :
    KeyTools
    → String
    → AuditContext
    → IssuerSigningKey
    → Ending
    → Keyring
    → Result (IssuerSigningKey × List String) × Keyring
end_rotation t issuer_id context new refused s = (err "audit", s)
end_rotation t issuer_id context new rolled_back s =
    (err "audit", record s { audit = record s.audit { next_seq = s.audit.next_seq + 1 } })
end_rotation t issuer_id context new committed s = (
  ok (new, retired_ids issuer_id s.keys),
  record {
    keys = new ∷ update_where (is_current issuer_id) (retired_row t.now) s.keys;
    audit =
        write_entry t.builtins t.now (rotated_event new (retired_ids issuer_id s.keys) context)
          s.audit;
  },
)

rotated :
    KeyTools
    → String
    → AuditContext
    → Result IssuerSigningKey
    → Keyring
    → Result (IssuerSigningKey × List String) × Keyring
rotated t issuer_id context (err m) s = (err m, s)
rotated t issuer_id context (ok new) s =
    if any_of (shares_key_id new) s.keys
    then (err "P2002", s)
    else end_rotation t issuer_id context new t.audit_ends s

-- `rotateActiveKey`
unfoldable pub rotate_active_key :
    KeyTools → String → AuditContext → Keyring → Result (IssuerSigningKey × List String) × Keyring
unfolding rotated end_rotation build_key_data retired_row
rotate_active_key t issuer_id context s = rotated t issuer_id context (build_key_data t issuer_id) s
