-- ===== src/Institution.antt =====
-- apps/api/src/modules/institution/institution.service.ts: the institution that an account works for.
-- viem's `getAddress`, the environment and the id that the database draws are arguments. The list of
-- issuers is in the order of the service's queries, latest update first; a call that throws may have
-- seeded the institution of a development machine before.
mod Tests
use mathlib.Core.Option
use certiva.Prelude.{
  Bool, true, false, not, ◌&&◌, String, Option, none, some, List, [], ◌∷◌, ◌===◌, Result, ok, err,
  ◌>>=◌, catch, if◌then◌else◌, find_first, filter_by, update_where, any_of, truthy, or_else,
  eq_some,
}
use certiva.Text.{trim}
use certiva.Registry.{Issuer, IssuerStatus, active}
use certiva.Auth.{Admin, JwtPayload, Accounts, find_active_institution}

-- NODE_ENV, ISSUER_WALLET, `getAddress`, and the id of a row that is created.
pub record Setting : Type 0 where
  pub development : Bool
  pub issuer_wallet : Option String
  pub get_address : String → Result String
  pub new_id : String

-- `input?.trim() || null`
unfoldable pub trimmed : Option String → Option String
trimmed input = let t = Option.map trim input in if truthy t then t else none

normal_address : (String → Result String) → Option String → Option String
normal_address get_address none = none
normal_address get_address (some t) = catch (get_address t >>= λ a. ok (some a)) (λ _. some t)

-- `normalizeWallet`
unfoldable pub normalize_wallet : (String → Result String) → Option String → Option String
unfolding trimmed normal_address
normalize_wallet get_address input = normal_address get_address (trimmed input)

unfoldable pub seeded : Setting → Issuer
unfolding normalize_wallet
seeded v = record {
  id = v.new_id;
  name = "Example University";
  display_name = some "Example University";
  domain = "example.edu";
  wallet = normalize_wallet v.get_address v.issuer_wallet;
  logo_url = none;
  website_url = none;
  status = active;
}

-- `ensureDevelopmentInstitution`
found_or_seeded : Setting → Option Issuer → Accounts → Option Issuer × Accounts
found_or_seeded v (some i) s = (some i, s)
found_or_seeded v none s = (some (seeded v), record s { issuers = seeded v ∷ s.issuers })

unfoldable pub ensure_development_institution : Setting → Accounts → Option Issuer × Accounts
unfolding found_or_seeded seeded
ensure_development_institution v s =
    if v.development then found_or_seeded v (find_active_institution s.issuers) s else (none, s)

-- `findActiveInstitution`, and where it finds nothing, `ensureDevelopmentInstitution`.
active_or_seeded : Setting → Option Issuer → Accounts → Option Issuer × Accounts
active_or_seeded v (some i) s = (some i, s)
active_or_seeded v none s = ensure_development_institution v s

unfoldable pub active_institution : Setting → Accounts → Option Issuer × Accounts
unfolding active_or_seeded ensure_development_institution
active_institution v s = active_or_seeded v (find_active_institution s.issuers) s

abbrev pub has_issuer_id : String → Issuer → Bool
has_issuer_id id i = i.id === id

abbrev pub has_admin_id : String → Admin → Bool
has_admin_id id a = a.id === id

-- `linkAdminToInstitution`; the update of a row that does not exist throws.
unfoldable pub link_admin_to_institution : String → String → Accounts → Result Accounts
link_admin_to_institution admin_id issuer_id s =
    if any_of (has_admin_id admin_id) s.admins
    then ok (record s {
      admins =
          update_where (has_admin_id admin_id) (λ a. record a { issuer_id = some issuer_id })
            s.admins;
    })
    else err "P2025"

unfoldable pub find_issuer : Option String → List Issuer → Option Issuer
find_issuer none issuers = none
find_issuer (some id) issuers =
    if truthy (some id) then find_first (has_issuer_id id) issuers else none

abbrev pub is_active : Issuer → Bool
is_active i = elim i.status [ IssuerStatus.active ↦ true | _ ↦ false ]

linked_or_thrown : Issuer → Accounts → Result Accounts → Result Issuer × Accounts
linked_or_thrown i s (ok s') = (ok i, s')
linked_or_thrown i s (err m) = (err m, s)

link_if_other : JwtPayload → Option Issuer × Accounts → Result Issuer × Accounts
link_if_other admin (none, s) = (err "Institution configuration is required for this request", s)
link_if_other admin (some i, s) =
    if eq_some admin.issuer_id i.id
    then (ok i, s)
    else linked_or_thrown i s (link_admin_to_institution admin.sub i.id s)

resolve_linked : Setting → JwtPayload → Option Issuer → Accounts → Result Issuer × Accounts
resolve_linked v admin none s = link_if_other admin (active_institution v s)
resolve_linked v admin (some i) s =
    if is_active i then (ok i, s) else link_if_other admin (active_institution v s)

-- `resolveInstitutionForAdmin`
unfoldable pub resolve_institution_for_admin :
    Setting → JwtPayload → Accounts → Result Issuer × Accounts
unfolding resolve_linked link_if_other linked_or_thrown link_admin_to_institution find_issuer
resolve_institution_for_admin v admin s =
    resolve_linked v admin (find_issuer admin.issuer_id s.issuers) s

abbrev pub id_of : Result Issuer × Accounts → Result String × Accounts
id_of (r, s) = (r >>= λ i. ok i.id, s)

-- `resolveInstitutionId`
unfoldable pub resolve_institution_id : Setting → JwtPayload → Accounts → Result String × Accounts
resolve_institution_id v admin s = id_of (resolve_institution_for_admin v admin s)

pub record UpdateInstitutionDto : Type 0 where
  pub name : Option String
  pub display_name : Option String
  pub domain : Option String
  pub logo_url : Option String
  pub website_url : Option String
  pub wallet : Option String
  pub status : Option IssuerStatus

-- The data of the update: an `undefined` column keeps its value, a null one is cleared.
unfoldable pub updated : Setting → UpdateInstitutionDto → Issuer → Issuer
unfolding trimmed normalize_wallet
updated v dto i = record i {
  name = or_else (trimmed dto.name) i.name;
  display_name = trimmed dto.display_name;
  domain = or_else (trimmed dto.domain) i.domain;
  logo_url = trimmed dto.logo_url;
  website_url = trimmed dto.website_url;
  wallet = normalize_wallet v.get_address dto.wallet;
  status = or_else dto.status i.status;
}

-- The updated row moves to the front of the order by `updatedAt`.
abbrev pub put_first : Issuer → List Issuer → List Issuer
put_first i issuers = i ∷ filter_by (λ j. not (has_issuer_id i.id j)) issuers

-- `if (adminId) await this.linkAdminToInstitution(...)`
link_given : Option String → Issuer → Accounts → Result Issuer × Accounts
link_given none i s = (ok i, s)
link_given (some admin_id) i s =
    if truthy (some admin_id)
    then linked_or_thrown i s (link_admin_to_institution admin_id i.id s)
    else (ok i, s)

update_found :
    Setting
    → UpdateInstitutionDto
    → Option String
    → Option Issuer × Accounts
    → Result Issuer × Accounts
update_found v dto admin_id (none, s) = (err "Institution configuration not found", s)
update_found v dto admin_id (some i, s) =
    link_given admin_id (updated v dto i)
      (record s { issuers = put_first (updated v dto i) s.issuers })

-- `updateInstitution`, with `getInstitution` and its seeding.
unfoldable pub update_institution :
    Setting → UpdateInstitutionDto → Option String → Accounts → Result Issuer × Accounts
unfolding update_found link_given linked_or_thrown link_admin_to_institution updated
update_institution v dto admin_id s = update_found v dto admin_id (active_institution v s)
