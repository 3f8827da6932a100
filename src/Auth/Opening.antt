-- ===== src/Auth/Opening.antt =====
-- When `login` of apps/api/src/modules/auth/auth.service.ts opens a session, and what a refusal shows.
use certiva.Prelude.{
  Bool, true, false, ◌≡◌, ◌↔◌, refl, ap, String, Option, none, some, ◌===◌, Result, ok, err,
  find_first, find_first-All, All, arith, if◌then◌else◌,
}
use certiva.Auth.{
  Admin, JwtPayload, Accounts, Services, AuthResponse, log, has_id, payload_of, build_auth_response,
}
use certiva.Auth.Login.{
  LoginDto, login_query, identifier_of, stored_password, login, login_found, login_failure,
  failure_event, validate, validate_found,
}
use certiva.Auth.Steps.{login_admins}

-- Ids are a key of the table: a query by the id of a row finds that row.
abbrev pub IsKeyed : Accounts → Type 0
IsKeyed s = All (λ a. find_first (has_id a.id) s.admins ≡ some a) s.admins

-- The body of `login` for a given outcome of its tests.
abbrev login_as :
    Services → LoginDto → Accounts → Bool → Option Admin → Result AuthResponse × Accounts
login_as v dto s empty o =
    if empty
    then (err "Invalid credentials", s)
    else login_found v o (v.compare dto.password (stored_password o)) s

module _ (v : Services) (dto : LoginDto) (s : Accounts) where
  login_as_iff :
      (empty : Bool) (o : Option Admin) (r : AuthResponse)
      → ((login_as v dto s empty o).0 ≡ ok r) ↔ (
          (a : Admin) × (empty ≡ false)
          × (o ≡ some a)
          × (v.compare dto.password a.password ≡ true)
          × (a.active ≡ true)
          × (r ≡ build_auth_response v.sign a))
  unfolding login_found login_failure build_auth_response
  login_as_iff true o r = (λ e. cc, λ (a, e, _, _, _, _). cc)
  login_as_iff false none r = (λ e. cc, λ (a, _, e, _, _, _). cc)
  login_as_iff false (some a) r = (
    λ e. (a, refl, refl, ground (arith, e), ground (arith, e), ground (arith, e)),
    λ (b, _, f, c, d, g). ground (arith, f, c, d, g),
  )

  login_as_refused :
      (empty : Bool) (o : Option Admin) (m : String)
      → (login_as v dto s empty o).0 ≡ err m
      → (m ≡ "Invalid credentials")
        × ((login_as v dto s empty o).1 ≡ (if empty then s else log failure_event s))
  unfolding login_found login_failure
  login_as_refused true o m e = ground (arith, e)
  login_as_refused false none m e = ground (arith, e)
  login_as_refused false (some a) m e = ground (arith, e)

-- A login succeeds exactly for an identifier that is not empty, an account that it names, the
-- password of that account and an active account; the answer is that account's.
pub login_iff :
    (v : Services) (dto : LoginDto) (s : Accounts) (r : AuthResponse)
    → ((login v dto s).0 ≡ ok r) ↔ (
        (a : Admin) × ((identifier_of dto === "") ≡ false)
        × (find_first (login_query (identifier_of dto)) s.admins ≡ some a)
        × (v.compare dto.password a.password ≡ true)
        × (a.active ≡ true)
        × (r ≡ build_auth_response v.sign a))
unfolding login
login_iff v dto s r = login_as_iff v dto s _ _ r

-- A refused login tells nothing: the message is the same for an unknown account, a wrong password
-- and an inactive account; no table changes but for one LOGIN_FAILURE entry, which an empty
-- identifier does not leave.
pub login_refused :
    (v : Services) (dto : LoginDto) (s : Accounts) (m : String)
    → (login v dto s).0 ≡ err m
    → (m ≡ "Invalid credentials")
      × ((login v dto s).1 ≡ (if identifier_of dto === "" then s else log failure_event s))
unfolding login
login_refused v dto s m e = login_as_refused v dto s _ _ m e

module _ (v : Services) (dto : LoginDto) (s : Accounts) (keyed : IsKeyed s) where
  opened :
      (a : Admin)
      → find_first (login_query (identifier_of dto)) s.admins ≡ some a
      → a.active ≡ true
      → validate s (payload_of a) ≡ ok (payload_of a)
  unfolding validate validate_found
  opened a found on =
      let by_id =
        find_first-All (λ b. find_first (has_id b.id) s.admins ≡ some b) _ s.admins a keyed found in
      rw (by_id, on) (ground arith)

-- The token of a login is a session: it is signed over claims that are admitted at once, as they
-- stand, when ids are a key of the table.
pub login_opens_session :
    (v : Services) (dto : LoginDto) (s : Accounts) (r : AuthResponse)
    → IsKeyed s
    → (login v dto s).0 ≡ ok r
    → (p : JwtPayload) × (r.access_token ≡ v.sign p) × (validate (login v dto s).1 p ≡ ok p)
unfolding validate build_auth_response
login_opens_session v dto s r keyed e =
    let (a, _, found, _, on, answer) = (login_iff v dto s r).0 e in
    (
      payload_of a,
      ap (λ x. x.access_token) answer,
      rw (login_admins v dto s) (opened v dto s keyed a found on),
    )
