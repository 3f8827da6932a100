-- ===== src/Auth.antt =====
-- apps/api/src/modules/auth/auth.service.ts and the admin rows it works on. bcrypt, the signing of
-- tokens and the ids that the database draws are arguments. The time stamps of a row, the `active`
-- claim of a token (validation adds it, always true) and the metadata, address and user agent of an
-- audit entry are left out. The entries of the audit log are those of `auditLogService.log`, which
-- never fails here.
mod Tests
pub mod Login
pub mod Manage
pub mod Rows
pub mod Access
pub mod Steps
pub mod Owners
pub mod Opening
pub mod Sessions
use mathlib.Core.Option
use Prim.Native.String
use certiva.Prelude.{
  ℕ, Bool, true, false, not, ◌&&◌, ◌||◌, String, Option, none, some, List, [], ◌∷◌, ◌++◌, ◌===◌,
  ◌==◌, Result, ok, err, if◌then◌else◌, find_first, truthy, is_some, eq_some,
}
use certiva.Text.{trim, to_lower_case}
use certiva.Registry.{Issuer, IssuerStatus}

pub data AdminRole : Type 0 where
  owner super_admin admin auditor : AdminRole

abbrev pub is_owner : AdminRole → Bool
is_owner owner = true
is_owner _ = false

abbrev pub is_super_admin : AdminRole → Bool
is_super_admin super_admin = true
is_super_admin _ = false

abbrev pub same_role : AdminRole → AdminRole → Bool
same_role owner r = is_owner r
same_role super_admin r = is_super_admin r
same_role admin admin = true
same_role admin _ = false
same_role auditor auditor = true
same_role auditor _ = false

pub record Admin : Type 0 where
  pub id : String
  pub username : Option String
  pub email : String
  pub password : String
  pub role : AdminRole
  pub active : Bool
  pub token_version : ℕ
  pub issuer_id : Option String

pub record JwtPayload : Type 0 where
  pub sub : String
  pub username : Option String
  pub email : String
  pub role : AdminRole
  pub issuer_id : Option String
  pub token_version : ℕ

pub record AuditEvent : Type 0 where
  pub action : String
  pub actor_admin_id : Option String
  pub target_id : Option String

-- The tables that the service reads and writes.
pub record Accounts : Type 0 where
  pub admins : List Admin
  pub issuers : List Issuer
  pub audit_log : List AuditEvent

unfoldable pub log : AuditEvent → Accounts → Accounts
log event s = record s { audit_log = s.audit_log ++ event ∷ [] }

abbrev pub has_id : String → Admin → Bool
has_id id a = a.id === id

-- The services that the code calls.
pub record Services : Type 0 where
  pub hash : String → String
  pub compare : String → String → Bool
  pub sign : JwtPayload → String

-- `buildAuthResponse`: the token is signed over the payload, and the answer repeats the account.
pub record AuthResponse : Type 0 where
  pub access_token : String
  pub id : String
  pub username : Option String
  pub email : String
  pub role : AdminRole
  pub issuer_id : Option String

abbrev pub payload_of : Admin → JwtPayload
payload_of a = record {
  sub = a.id;
  username = a.username;
  email = a.email;
  role = a.role;
  issuer_id = a.issuer_id;
  token_version = a.token_version;
}

unfoldable pub build_auth_response : (JwtPayload → String) → Admin → AuthResponse
build_auth_response sign a = record {
  access_token = sign (payload_of a);
  id = a.id;
  username = a.username;
  email = a.email;
  role = a.role;
  issuer_id = a.issuer_id;
}

-- `normalizeUsername` and `normalizeLoginIdentifier`
abbrev pub normalize : String → String
normalize s = to_lower_case (trim s)

-- `findActiveInstitution` of institution.service.ts, on issuers in the order of its query.
is_live : Issuer → Bool
is_live i = elim i.status [ IssuerStatus.active ↦ not (i.domain === "") | _ ↦ false ]

with_wallet : Option Issuer → Bool
with_wallet none = false
with_wallet (some i) = truthy (Option.map trim i.wallet)

unfoldable pub find_active_institution : List Issuer → Option Issuer
unfolding is_live with_wallet
find_active_institution issuers =
    let first = find_first (λ i. is_live i && is_some i.wallet) issuers in
    if with_wallet first then first else find_first is_live issuers

-- `getInstitution` of institution.service.ts outside development, where nothing is seeded.
institution_or_missing : Option Issuer → Result Issuer
institution_or_missing none = err "Institution configuration not found"
institution_or_missing (some i) = ok i

unfoldable pub get_institution : List Issuer → Result Issuer
unfolding institution_or_missing
get_institution issuers = institution_or_missing (find_active_institution issuers)
