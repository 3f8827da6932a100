-- ===== src/Signing/Tests.antt =====
-- The signing keys of two institutions, and a rotation.
use certiva.Prelude.{true, false, ◌≡◌, refl, none, some, [], ◌∷◌, ok, err}
use certiva.Assets.{◌<>◌}
use certiva.Audit.Chain.{Ending, committed, rolled_back}
use certiva.Signing.{
  IssuerSigningKey, AuditContext, Keyring, KeyTools, is_current, build_key_data, retired_row,
  retired_ids, rotate_active_key,
}
use certiva.Signing.Rotation.{Rotates, rotate-Rotates}

abbrev old_key : IssuerSigningKey
old_key = record {
  id = "k1";
  issuer_id = "iss1";
  key_id = "sk_1";
  public_key = "pk1";
  private_key_encrypted = "e1";
  algorithm = "Ed25519";
  created_at = 1;
  revoked_at = none;
  active = true;
}

abbrev keyring : Keyring
keyring = record {
  keys = record old_key { id = "k2"; issuer_id = "iss2"; key_id = "sk_2" } ∷ old_key ∷ [];
  audit = record { rows = []; head = none; next_seq = 1 };
}

abbrev tools : Ending → KeyTools
tools ending = record {
  generate_key_pair = ok ("pk3", "e3");
  algorithm = "Ed25519";
  new_id = "k3";
  random_hex = "3";
  now = 5;
  builtins = record {
    sha256 = λ s. "#" <> s;
    iso = λ n. "t";
    quote = λ s. s;
    show = λ n. "0";
    key_before = λ a b. false;
  };
  audit_ends = ending;
}

abbrev by_admin : AuditContext
by_admin = record {
  actor_admin_id = some "a1";
  actor_username = some "root";
  ip_address = none;
  user_agent = none;
}

retired_test :
    (retired_ids "iss1" keyring.keys ≡ "sk_1" ∷ [])
    × ((rotate_active_key (tools rolled_back) "iss1" by_admin keyring).0 ≡ err "audit")
unfolding rotate_active_key is_current build_key_data retired_row
retired_test = (refl, refl)

rotate-Rotates_example :
    Rotates
      (tools committed)
      "iss1"
      by_admin
      keyring
      (rotate_active_key (tools committed) "iss1" by_admin keyring)
rotate-Rotates_example = rotate-Rotates (tools committed) "iss1" by_admin keyring
