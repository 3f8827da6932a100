-- ===== src/Auth/Sessions.antt =====
-- The sessions of apps/api/src/common/strategies/jwt.strategy.ts under the updates of
-- apps/api/src/modules/auth/auth.service.ts: which update ends one, for how long.
use certiva.Prelude.{
  ◌≤◌, ◌<◌, ◌⊎◌, inl, inr, ◌||◌, subst, true, false, ◌≡◌, ◌≢◌, refl, ap, ◌∙◌, String, some, List,
  [], ◌∷◌, ◌===◌, Result, ok, err, find_first, arith, Bool-cases, if◌then◌else◌, eq_iff,
}
use mathlib.Core.Option.{some-injective}
use certiva.Auth.{Admin, JwtPayload, Accounts, has_id}
use certiva.Auth.Login.{validate, validate_found}
use certiva.Auth.Manage.{
  UpdateAdminDto, AdminView, updated, update_admin, update_row, is_disabling, is_role_change,
}
use certiva.Auth.Steps.{update_admin-Updating}

module _ (id : String) (f : Admin → Admin) (same : (a : Admin) → (f a).id ≡ a.id) where
  find_first-update_row :
      (rows : List Admin) (e : Admin)
      → find_first (has_id id) rows ≡ some e
      → find_first (has_id id) (update_row (has_id id) f rows) ≡ some (f e)
  find_first-update_row [] e found = cc
  find_first-update_row (a ∷ rest) e found = elim (Bool-cases (has_id id a)) [
    | inl t ↦
        let kept : has_id id (f a) ≡ true = ap (λ i. i === id) (same a) ∙ t in
        rw (t, kept) (ap (λ z. some (f z)) (some-injective a e (rw t at found)))
    | inr n ↦ rw (n, n) (find_first-update_row rest e (rw n at found))
  ]

  find_first-update_row-other :
      (other : String) (rows : List Admin)
      → other ≢ id
      → find_first (has_id other) (update_row (has_id id) f rows) ≡ find_first (has_id other) rows
  find_first-update_row-other other [] n = refl
  find_first-update_row-other other (a ∷ rest) n = elim (Bool-cases (has_id id a)) [
    | inl t ↦
        let not_other : has_id other a ≡ false =
          ground (arith, eq_iff a.id other, eq_iff a.id id, t, n) in
        let kept : has_id other (f a) ≡ false = ap (λ i. i === other) (same a) ∙ not_other in
        rw (t, kept, not_other) refl
    | inr u ↦ rw (u, find_first-update_row-other other rest n) refl
  ]

-- What a token meets at an account after an update.
abbrev pub Settled : JwtPayload → UpdateAdminDto → Result JwtPayload → Type 0
Settled q dto answer =
    ((answer ≡ ok q) × (is_disabling dto ≡ false) × (is_role_change q.role dto ≡ false))
    ⊎ ((m : String) × (answer ≡ err m) × ((is_disabling dto || is_role_change q.role dto) ≡ true))

settled_message : UpdateAdminDto → String
settled_message dto =
    if is_disabling dto then "Admin account is inactive" else "Session has been invalidated"

session-Settled :
    (p q : JwtPayload) (a : Admin) (dto : UpdateAdminDto)
    → validate_found p (some a) ≡ ok q
    → Settled q dto (validate_found p (some (updated dto a)))
unfolding validate_found updated settled_message
session-Settled p q a dto v = elim (Bool-cases (is_disabling dto || is_role_change q.role dto)) [
  | inl t ↦ inr (settled_message dto, ground (arith, v, t), t)
  | inr n ↦ inl (ground (arith, v, n), ground (arith, n), ground (arith, n))
]

-- An update of an account settles each of its sessions: a token that was admitted before stays
-- admitted, with the same claims, if the update neither disables the account nor changes its role,
-- and is refused if it does.
pub session_settles :
    (actor p q : JwtPayload) (dto : UpdateAdminDto) (s s' : Accounts) (r : AdminView)
    → validate s p ≡ ok q
    → update_admin actor p.sub dto s ≡ ok (r, s')
    → Settled q dto (validate s' p)
unfolding validate updated
session_settles actor p q dto s s' r v e =
    let u = update_admin-Updating actor p.sub dto s s' r e in
    rw (u.rows, find_first-update_row p.sub (updated dto) (λ a. refl) s.admins u.existing u.found)
      (session-Settled p q u.existing dto (rw u.found at v))

-- Any number of updates, of any accounts by anyone.
pub data Updates (s : Accounts) : Accounts → Type 0 where
  none_yet : Updates s s
  more :
      {s' s'' : Accounts} (actor : JwtPayload) (id : String) (dto : UpdateAdminDto) (r : AdminView)
      → Updates s s'
      → update_admin actor id dto s' ≡ ok (r, s'')
      → Updates s s''

-- The account of a token has moved on to a later version.
abbrev Outdated : JwtPayload → Accounts → Type 0
Outdated p s =
    (a : Admin) × (find_first (has_id p.sub) s.admins ≡ some a)
    × (p.token_version < a.token_version)

updated_later : (dto : UpdateAdminDto) (a : Admin) → a.token_version ≤ (updated dto a).token_version
unfolding updated
updated_later dto a = ground arith

update_admin-Outdated :
    (actor p : JwtPayload) (id : String) (dto : UpdateAdminDto) (s s' : Accounts) (r : AdminView)
    → update_admin actor id dto s ≡ ok (r, s')
    → Outdated p s
    → Outdated p s'
unfolding updated
update_admin-Outdated actor p id dto s s' r e (a, found, later) =
    let u = update_admin-Updating actor id dto s s' r e in
    elim (Bool-cases (p.sub === id)) [
      | inl t ↦
          let same : p.sub ≡ id = (eq_iff p.sub id).0 t in
          let own : find_first (has_id id) s.admins ≡ some a =
            subst (λ i. find_first (has_id i) s.admins ≡ some a) same found in
          (
            updated dto a,
            rw (u.rows, same) (find_first-update_row id (updated dto) (λ b. refl) s.admins a own),
            omega (arith, later, updated_later dto a),
          )
      | inr n ↦ (
        a,
        rw u.rows (
            find_first-update_row-other id (updated dto) (λ b. refl) p.sub s.admins
              (λ same. cc (n, (eq_iff p.sub id).1 same))
            ∙ found),
        later,
      )
    ]

Updates-Outdated : (p : JwtPayload) (s s' : Accounts) → Updates s s' → Outdated p s → Outdated p s'
Updates-Outdated p s _ none_yet o = o
Updates-Outdated p s s' (more {s' = s1} actor id dto r before e) o =
    update_admin-Outdated actor p id dto s1 s' r e (Updates-Outdated p s s1 before o)

Outdated-validate :
    (p : JwtPayload) (s : Accounts) (q : JwtPayload) → Outdated p s → validate s p ≢ ok q
unfolding validate validate_found
Outdated-validate p s q (a, found, later) = rw found (λ e. ground (arith, e, later))

version_spent :
    (p q : JwtPayload) (a : Admin) (dto : UpdateAdminDto)
    → validate_found p (some a) ≡ ok q
    → (is_disabling dto || is_role_change q.role dto) ≡ true
    → p.token_version < (updated dto a).token_version
unfolding validate_found updated
version_spent p q a dto v t = ground (arith, v, t)

-- A session that an update ends stays ended: after a disabling or a change of role the token is
-- admitted with no claims whatever, however the accounts are updated afterwards, also when the
-- account is enabled again or gets its role back.
pub session_stays_ended :
    (actor p q : JwtPayload) (dto : UpdateAdminDto) (s s' s'' : Accounts) (r : AdminView)
    (claims : JwtPayload)
    → validate s p ≡ ok q
    → update_admin actor p.sub dto s ≡ ok (r, s')
    → (is_disabling dto || is_role_change q.role dto) ≡ true
    → Updates s' s''
    → validate s'' p ≢ ok claims
unfolding validate updated
session_stays_ended actor p q dto s s' s'' r claims v e ends later =
    let u = update_admin-Updating actor p.sub dto s s' r e in
    let found = find_first-update_row p.sub (updated dto) (λ a. refl) s.admins u.existing u.found in
    Outdated-validate p s'' claims (
      Updates-Outdated p s' s'' later (
        updated dto u.existing,
        rw u.rows found,
        version_spent p q u.existing dto (rw u.found at v) ends,
      ))

-- An update leaves the sessions of every other account as they are.
pub sessions_of_others :
    (actor p : JwtPayload) (id : String) (dto : UpdateAdminDto) (s s' : Accounts) (r : AdminView)
    → p.sub ≢ id
    → update_admin actor id dto s ≡ ok (r, s')
    → validate s' p ≡ validate s p
unfolding validate updated
sessions_of_others actor p id dto s s' r n e =
    let u = update_admin-Updating actor id dto s s' r e in
    rw (u.rows, find_first-update_row-other id (updated dto) (λ a. refl) p.sub s.admins n) refl
