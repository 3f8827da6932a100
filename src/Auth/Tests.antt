-- ===== src/Auth/Tests.antt =====
-- Accounts, tokens and the theorems about them on a table of two admins.
use certiva.Prelude.{
  true, false, ◌≡◌, ◌≢◌, ◌↔◌, refl, String, some, none, [], ◌∷◌, ok, err, find_first, filter_by,
  ◌===◌, if◌then◌else◌,
}
use certiva.Assets.{◌<>◌}
use certiva.Text.{to_lower_case, trim, is_space}
use certiva.Auth.{
  owner, admin, auditor, Admin, JwtPayload, Accounts, Services, AuthResponse, payload_of,
  build_auth_response, log, is_owner,
}
use certiva.Auth.Login.{
  LoginDto, login_query, identifier_of, failure_event, login, login_found, login_failure, validate,
  validate_found,
}
use certiva.Auth.Manage.{
  UpdateAdminDto, AdminView, Activity, update_admin, may_update, commit_update, updated, view,
  is_disabling, is_role_change, delete_admin,
}
use certiva.Auth.Owners.{HasOwner, is_owner_row, owner_remains, owners_untouched}
use certiva.Auth.Steps.{Step, updated_by, start, step}
use certiva.Auth.Opening.{login_iff, login_refused, login_opens_session, IsKeyed}
use certiva.Auth.Sessions.{session_settles, session_stays_ended, Settled, none_yet, more}
use certiva.Auth.Access.{ClientRequest, RouteRequest, before_comma, can_activate, resolve_client_ip}
use certiva.Fixtures.{issuer}

-- What a run of the account operations unfolds.
auth_run : Unit {0}
unfolding login login_found login_failure login_query validate validate_found update_admin
    may_update commit_update updated view log trim to_lower_case build_auth_response
auth_run = tt

abbrev root : Admin
root = record {
  id = "a1";
  username = some "root";
  email = "root@certiva.local";
  password = "#secret";
  role = owner;
  active = true;
  token_version = 0;
  issuer_id = some "iss1";
}

abbrev clerk : Admin
clerk = record root {
  id = "a2";
  username = some "clerk";
  email = "clerk@certiva.local";
  role = admin;
}

abbrev accounts : Accounts
accounts = record { admins = root ∷ clerk ∷ []; issuers = issuer ∷ []; audit_log = [] }

abbrev services : Services
services = record {
  hash = λ s. s;
  compare = λ password hashed. hashed === ("#" <> password);
  sign = λ p. p.sub;
}

abbrev idle : Activity
idle = record {
  uploaded_batches = [];
  revoked_credentials = [];
  registered_proofs = [];
  created_proofs = [];
  revoked_proofs = [];
}

abbrev disable : UpdateAdminDto
disable = record { role = none; active = some false }

abbrev after_disable : Accounts
after_disable = record {
  admins = root ∷ record clerk { active = false; token_version = 1 } ∷ [];
  issuers = issuer ∷ [];
  audit_log =
      record { action = "ADMIN_DISABLED"; actor_admin_id = some "a1"; target_id = some "a2" } ∷ [];
}

abbrev disabled_clerk : AdminView
disabled_clerk = record {
  id = "a2";
  username = some "clerk";
  email = "clerk@certiva.local";
  role = admin;
  active = false;
}

disabled : update_admin (payload_of root) "a2" disable accounts ≡ ok (disabled_clerk, after_disable)
unfolding auth_run
disabled = refl

-- The last owner can neither be demoted nor disable itself.
last_owner :
    (update_admin (payload_of root) "a1" (record { role = some auditor; active = none }) accounts
      ≡ err "Cannot remove or demote the last active OWNER account")
    × (update_admin (payload_of root) "a1" disable accounts
        ≡ err "Cannot disable your own admin account")
    × (delete_admin idle (payload_of clerk) "a1" accounts ≡ err "Cannot delete an OWNER account")
unfolding auth_run delete_admin certiva.Auth.Manage.not_last_owner
last_owner = (refl, refl, refl)

disable_step : Step services idle (some (payload_of root)) accounts after_disable
disable_step = updated_by (payload_of root) "a2" disable disabled_clerk refl disabled

owner_remains_example : HasOwner after_disable
owner_remains_example =
    owner_remains services idle accounts after_disable
      (step (some (payload_of root)) start disable_step) refl

-- A token that claims less than OWNER: the clerk disables itself through another account.
abbrev manager : JwtPayload
manager = record (payload_of clerk) { sub = "a3" }

abbrev after_manager : Accounts
after_manager = record after_disable {
  audit_log =
      record { action = "ADMIN_DISABLED"; actor_admin_id = some "a3"; target_id = some "a2" } ∷ [];
}

disabled_by_manager :
    update_admin manager "a2" disable accounts ≡ ok (disabled_clerk, after_manager)
unfolding auth_run
disabled_by_manager = refl

owners_untouched_example :
    filter_by is_owner_row after_manager.admins ≡ filter_by is_owner_row accounts.admins
owners_untouched_example =
    owners_untouched services idle manager accounts after_manager refl
      (updated_by manager "a2" disable disabled_clerk refl disabled_by_manager)

session_settles_example :
    Settled (payload_of clerk) disable (validate after_disable (payload_of clerk))
unfolding auth_run
session_settles_example =
    session_settles (payload_of root) (payload_of clerk) (payload_of clerk) disable accounts
      after_disable disabled_clerk refl disabled

abbrev enable : UpdateAdminDto
enable = record { role = none; active = some true }

abbrev after_enable : Accounts
after_enable = record after_disable {
  admins = root ∷ record clerk { token_version = 1 } ∷ [];
  audit_log =
      record { action = "ADMIN_DISABLED"; actor_admin_id = some "a1"; target_id = some "a2" }
      ∷ record { action = "ADMIN_UPDATED"; actor_admin_id = some "a1"; target_id = some "a2" }
      ∷ [];
}

enabled_again :
    update_admin (payload_of root) "a2" enable after_disable
    ≡ ok (record disabled_clerk { active = true }, after_enable)
unfolding auth_run
enabled_again = refl

session_stays_ended_example : validate after_enable (payload_of clerk) ≢ ok (payload_of clerk)
unfolding auth_run
session_stays_ended_example =
    session_stays_ended (payload_of root) (payload_of clerk) (payload_of clerk) disable accounts
      after_disable after_enable disabled_clerk (payload_of clerk) refl disabled refl
      (more (payload_of root) "a2" enable (record disabled_clerk { active = true }) none_yet
        enabled_again)

abbrev credentials : LoginDto
credentials = record { username = some " Root "; email = none; password = "secret" }

login_iff_example :
    ((login services credentials accounts).0 ≡ ok (build_auth_response services.sign root)) ↔ (
      (a : Admin) × ((identifier_of credentials === "") ≡ false)
      × (find_first (login_query (identifier_of credentials)) accounts.admins ≡ some a)
      × (services.compare credentials.password a.password ≡ true)
      × (a.active ≡ true)
      × (build_auth_response services.sign root ≡ build_auth_response services.sign a))
login_iff_example = login_iff services credentials accounts (build_auth_response services.sign root)

abbrev stranger : LoginDto
stranger = record credentials { username = some "nobody" }

login_refused_example :
    (◌≡◌ {A = String} "Invalid credentials" "Invalid credentials")
    × ((login services stranger accounts).1
        ≡ (if identifier_of stranger === "" then accounts else log failure_event accounts))
unfolding auth_run
login_refused_example = login_refused services stranger accounts "Invalid credentials" refl

accounts-IsKeyed : IsKeyed accounts
accounts-IsKeyed = (refl, (refl, tt))

login_opens_session_example :
    (p : JwtPayload) × ((build_auth_response services.sign root).access_token ≡ services.sign p)
    × (validate (login services credentials accounts).1 p ≡ ok p)
unfolding auth_run
login_opens_session_example =
    login_opens_session services credentials accounts (build_auth_response services.sign root)
      accounts-IsKeyed refl

abbrev forged : ClientRequest
forged = record {
  cf_connecting_ip = none;
  x_forwarded_for = some " 10.0.0.9, 10.0.0.1";
  ip = some "203.0.113.7";
  remote_address = none;
}

client_ip_test :
    (resolve_client_ip forged false ≡ "203.0.113.7") × (resolve_client_ip forged true ≡ "10.0.0.9")
unfolding resolve_client_ip before_comma trim is_space
client_ip_test = (refl, refl)

guard_test :
    let request : RouteRequest = record { user = some (payload_of root); route = "POST /x" } in
    ((can_activate (some (auditor ∷ [])) request accounts).0
      ≡ err "You do not have permission to perform this action")
    × ((can_activate none request accounts).0 ≡ ok true)
unfolding can_activate
guard_test = (refl, refl)
