-- ===== src/Auth/Owners.antt =====
-- What the account operations of apps/api/src/modules/auth/auth.service.ts keep true of the OWNER
-- accounts, over every sequence of them.
use certiva.Prelude.{
  Bool, true, false, ◌&&◌, ◌≡◌, ◌⊎◌, refl, inl, inr, String, Option, some, List, [], ◌∷◌, ok,
  filter_by, any_of, arith, Bool-cases,
}
use certiva.Auth.{is_owner, Admin, JwtPayload, Accounts, Services, has_id}
use certiva.Auth.Manage.{
  UpdateAdminDto, is_other_owner, not_last_owner, updated, may_update, Activity, update_row,
}
use certiva.Auth.Rows.{
  any_of-update_row, any_of-update_row-other, filter_by-update_row, any_of-delete_row,
  filter_by-delete_row, any_of-append, filter_by-append-none, filter_by-any_of,
}
use certiva.Auth.Steps.{
  Step, registered, updated_by, deleted_by, logged_in, Steps, start, step, Updating,
  update_admin-Updating, delete_admin-Deleting, register-Registering, login_admins,
}

abbrev pub is_owner_row : Admin → Bool
is_owner_row a = is_owner a.role

abbrev pub is_active_owner : Admin → Bool
is_active_owner a = is_owner a.role && a.active

-- Someone can administer the registry.
abbrev pub HasOwner : Accounts → Type 0
HasOwner s = any_of is_active_owner s.admins ≡ true

-- An allowed update keeps the account an active OWNER, or another one is left.
owner_left :
    (actor : JwtPayload) (e : Admin) (id : String) (dto : UpdateAdminDto) (rows : List Admin)
    → may_update actor e id dto rows ≡ ok tt
    → is_active_owner e ≡ true
    → (is_active_owner (updated dto e) ≡ true) ⊎ (not_last_owner id rows ≡ true)
unfolding may_update updated
owner_left actor e id dto rows m h = ground (arith, m, h)

update-HasOwner :
    (actor : JwtPayload) (id : String) (dto : UpdateAdminDto) (s s' : Accounts)
    → Updating actor id dto s s'
    → HasOwner s
    → HasOwner s'
unfolding not_last_owner
update-HasOwner actor id dto s s' u h = rw u.rows (go (Bool-cases (is_active_owner u.existing)))
  where
    rest :
        not_last_owner id s.admins ≡ true
        → any_of is_active_owner (update_row (has_id id) (updated dto) s.admins) ≡ true
    rest n =
        any_of-update_row-other (has_id id) is_active_owner (updated dto) s.admins
          (filter_by-any_of (is_other_owner id) s.admins n)

    go :
        (is_active_owner u.existing ≡ true) ⊎ (is_active_owner u.existing ≡ false)
        → any_of is_active_owner (update_row (has_id id) (updated dto) s.admins) ≡ true
    go (inr n) =
        any_of-update_row (has_id id) is_active_owner (updated dto) s.admins u.existing u.found
          (λ x. cc) h
    go (inl t) = elim (owner_left actor u.existing id dto s.admins u.allowed t) [
      | inl k ↦
          any_of-update_row (has_id id) is_active_owner (updated dto) s.admins u.existing u.found
            (λ x. k) h
      | inr n ↦ rest n
    ]

-- Two privileges only an OWNER has: giving them is refused to anyone else.
not_given :
    (actor : JwtPayload) (e : Admin) (id : String) (dto : UpdateAdminDto) (rows : List Admin)
    → may_update actor e id dto rows ≡ ok tt
    → is_owner actor.role ≡ false
    → (is_owner_row e ≡ false) × (is_owner_row (updated dto e) ≡ false)
unfolding may_update updated
not_given actor e id dto rows m n = ground (arith, m, n)

step-HasOwner :
    {v : Services} {t : Activity} {actor : Option JwtPayload} {s s' : Accounts}
    → Step v t actor s s'
    → HasOwner s
    → HasOwner s'
step-HasOwner {v} {t} {actor} {s} (registered id dto r e) h =
    let reg = register-Registering v id actor dto s _ r e in
    rw reg.rows (any_of-append is_active_owner s.admins (reg.created ∷ []) h)
step-HasOwner {v} {t} {actor} {s} (updated_by a id dto r w e) h =
    update-HasOwner a id dto s _ (update_admin-Updating a id dto s _ r e) h
step-HasOwner {v} {t} {actor} {s} (deleted_by a id r w e) h =
    let del = delete_admin-Deleting a id s _ r t e in
    rw del.rows (
      any_of-delete_row (has_id id) is_active_owner s.admins del.existing del.found
        (ground (arith, del.inactive)) h)
step-HasOwner {v} {t} {actor} {s} (logged_in dto) h = rw (login_admins v dto s) h

-- There is always an active OWNER: once there is one, every sequence of registrations, updates,
-- deletions and logins, by any actors, each run alone, leaves one.
pub owner_remains :
    (v : Services) (t : Activity) (s s' : Accounts) → Steps v t s s' → HasOwner s → HasOwner s'
owner_remains v t s _ start h = h
owner_remains v t s s' (step actor before last) h =
    step-HasOwner last (owner_remains v t s _ before h)

-- Nobody but an OWNER reaches the OWNER accounts: a registration, update, deletion or login by any
-- other actor adds, changes and removes none of them.
pub owners_untouched :
    (v : Services) (t : Activity) (actor : JwtPayload) (s s' : Accounts)
    → is_owner actor.role ≡ false
    → Step v t (some actor) s s'
    → filter_by is_owner_row s'.admins ≡ filter_by is_owner_row s.admins
owners_untouched v t actor s s' n (registered id dto r e) =
    let reg = register-Registering v id (some actor) dto s s' r e in
    rw reg.rows
      (filter_by-append-none is_owner_row s.admins reg.created (ground (arith, reg.allowed, n)))
owners_untouched v t actor s s' n (updated_by a id dto r w e) =
    let upd = update_admin-Updating a id dto s s' r e in
    let no = not_given a upd.existing id dto s.admins upd.allowed (ground (arith, w, n)) in
    rw upd.rows (
      filter_by-update_row (has_id id) is_owner_row (updated dto) s.admins upd.existing upd.found
        no.0 no.1)
owners_untouched v t actor s s' n (deleted_by a id r w e) =
    let del = delete_admin-Deleting a id s s' r t e in
    rw del.rows (
      filter_by-delete_row (has_id id) is_owner_row s.admins del.existing del.found
        (ground (arith, del.allowed, w, n)))
owners_untouched v t actor s _ n (logged_in dto) = rw (login_admins v dto s) refl
