-- ===== src/Auth/Access.antt =====
-- apps/api/src/common/guards/roles.guard.ts and apps/api/src/common/http/resolve-client-ip.ts: who may
-- call a route, and the address that is recorded for a request. A request has its route and the
-- account that its token has given, if any.
use Prim.Native.Char.{code}
use certiva.Prelude.{
  Bool, true, false, not, ◌≡◌, refl, String, Option, none, some, List, [], ◌∷◌, Result, ok, err,
  ◌==◌, if◌then◌else◌, any_of, truthy, or_else,
}
use certiva.Text.{trim}
use certiva.Auth.{AdminRole, same_role, JwtPayload, Accounts, AuditEvent, log}

pub record RouteRequest : Type 0 where
  pub user : Option JwtPayload
  pub route : String

abbrev pub forbidden_attempt : JwtPayload → String → AuditEvent
forbidden_attempt admin route = record {
  action = "FORBIDDEN_ATTEMPT";
  actor_admin_id = some admin.sub;
  target_id = some route;
}

admit_role : List AdminRole → JwtPayload → String → Accounts → Result Bool × Accounts
admit_role roles admin route s =
    if not (any_of (same_role admin.role) roles)
    then (
      err "You do not have permission to perform this action",
      log (forbidden_attempt admin route) s,
    )
    else (ok true, s)

-- An `if (!admin) return false` comes before the roles are compared.
admit_user : List AdminRole → Option JwtPayload → String → Accounts → Result Bool × Accounts
admit_user roles none route s = (ok false, s)
admit_user roles (some admin) route s = admit_role roles admin route s

-- `canActivate`; no roles, or an empty list of them, admit everyone.
unfoldable pub can_activate :
    Option (List AdminRole) → RouteRequest → Accounts → Result Bool × Accounts
unfolding admit_user admit_role
can_activate none request s = (ok true, s)
can_activate (some []) request s = (ok true, s)
can_activate (some (role ∷ roles)) request s =
    admit_user (role ∷ roles) request.user request.route s

-- A header is there only if it is one string.
pub record ClientRequest : Type 0 where
  pub cf_connecting_ip : Option String
  pub x_forwarded_for : Option String
  pub ip : Option String
  pub remote_address : Option String

-- `split(',')[0]`
unfoldable pub before_comma : String → String
before_comma String.[] = String.[]
before_comma (String.◌∷◌ c s) =
    let rest = before_comma s in if code c == 44 then String.[] else String.◌∷◌ c rest

abbrev pub known_address : ClientRequest → String
known_address r = or_else r.ip (or_else r.remote_address "unknown")

abbrev pub or_unknown : String → String
or_unknown address = if truthy (some address) then address else "unknown"

forwarded_address : ClientRequest → Option String → String
forwarded_address r none = known_address r
forwarded_address r (some header) =
    if truthy (some (trim header)) then or_unknown (trim (before_comma header)) else known_address r

proxy_address : ClientRequest → Bool → String
proxy_address r true = forwarded_address r r.x_forwarded_for
proxy_address r false = known_address r

cloudflare_address : ClientRequest → Bool → Option String → String
cloudflare_address r trust_proxy none = proxy_address r trust_proxy
cloudflare_address r trust_proxy (some header) =
    if truthy (some (trim header)) then trim header else proxy_address r trust_proxy

-- `resolveClientIp`
unfoldable pub resolve_client_ip : ClientRequest → Bool → String
unfolding cloudflare_address proxy_address forwarded_address before_comma
resolve_client_ip r trust_proxy = cloudflare_address r trust_proxy r.cf_connecting_ip

module _ (r : ClientRequest) (header : Option String) where
  cloudflare-untrusted :
      (cf : Option String)
      → cloudflare_address r false cf
        ≡ cloudflare_address (record r { x_forwarded_for = header }) false cf
  unfolding cloudflare_address proxy_address
  cloudflare-untrusted none = refl
  cloudflare-untrusted (some h) = refl

  -- Without a trusted proxy, the header that the client writes has no say.
  pub untrusted_header_ignored :
      resolve_client_ip r false ≡ resolve_client_ip (record r { x_forwarded_for = header }) false
  unfolding resolve_client_ip
  untrusted_header_ignored = cloudflare-untrusted r.cf_connecting_ip
