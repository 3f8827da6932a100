-- ===== src/Auth/Login.antt =====
-- `login` of apps/api/src/modules/auth/auth.service.ts, and `validate` of
-- apps/api/src/common/strategies/jwt.strategy.ts, which admits a token that was signed.
use certiva.Prelude.{
  Bool, not, ◌||◌, String, Option, none, some, Result, ok, err, ◌===◌, ◌==◌, if◌then◌else◌,
  find_first, eq_some, or_else, or_try,
}
use certiva.Auth.{
  Admin, AuditEvent, JwtPayload, Accounts, Services, AuthResponse, log, has_id, payload_of,
  build_auth_response, normalize,
}

pub record LoginDto : Type 0 where
  pub username : Option String
  pub email : Option String
  pub password : String

abbrev pub unknown_admin_dummy_hash : String
unknown_admin_dummy_hash = "$2b$12$t3lb/w0Cqltg.pSEevPP2unB/HV56rPcSjDyRtFOSSNmjXBrt8Zy6"

-- `OR: [{ username: identifier }, { email: identifier }]`
unfoldable pub login_query : String → Admin → Bool
login_query identifier a = eq_some a.username identifier || a.email === identifier

abbrev pub identifier_of : LoginDto → String
identifier_of dto = normalize (or_else (or_try dto.username dto.email) "")

-- The hash that the password is compared with: a missing account costs one comparison too.
abbrev pub stored_password : Option Admin → String
stored_password none = unknown_admin_dummy_hash
stored_password (some a) = a.password

abbrev pub failure_event : AuditEvent
failure_event = record { action = "LOGIN_FAILURE"; actor_admin_id = none; target_id = none }

unfoldable pub login_failure : Accounts → Result AuthResponse × Accounts
unfolding log
login_failure s = (err "Invalid credentials", log failure_event s)

unfoldable pub login_found :
    Services → Option Admin → Bool → Accounts → Result AuthResponse × Accounts
unfolding login_failure log
login_found v none valid s = login_failure s
login_found v (some a) valid s =
    if not valid then login_failure s else if not a.active then login_failure s else (
      ok (build_auth_response v.sign a),
      log (record { action = "LOGIN_SUCCESS"; actor_admin_id = some a.id; target_id = some a.id })
          s,
    )

unfoldable pub login : Services → LoginDto → Accounts → Result AuthResponse × Accounts
unfolding login_found
login v dto s =
    let identifier = identifier_of dto in
    let found = find_first (login_query identifier) s.admins in
    if identifier === ""
    then (err "Invalid credentials", s)
    else login_found v found (v.compare dto.password (stored_password found)) s

unfoldable pub validate_found : JwtPayload → Option Admin → Result JwtPayload
validate_found payload none = err "Admin account no longer exists"
validate_found payload (some a) =
    if not a.active
    then err "Admin account is inactive"
    else if not (payload.token_version == a.token_version)
    then err "Session has been invalidated"
    else ok (payload_of a)

-- `JwtStrategy.validate`
unfoldable pub validate : Accounts → JwtPayload → Result JwtPayload
unfolding validate_found
validate s payload = validate_found payload (find_first (has_id payload.sub) s.admins)
