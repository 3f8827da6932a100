-- ===== src/Auth/Steps.antt =====
-- The account operations of apps/api/src/modules/auth/auth.service.ts as steps, and what a step that
-- returned has checked and done.
use certiva.Prelude.{
  Bool, true, false, not, ◌&&◌, ◌≡◌, refl, sym, ap, String, Option, none, some, [], ◌∷◌, ◌++◌,
  ◌===◌, Result, ok, err, ◌>>=◌, guard, find_first, or_else, arith, if◌then◌else◌,
}
use certiva.Registry.{Issuer}
use certiva.Auth.{
  admin, is_owner, Admin, JwtPayload, Accounts, Services, AuthResponse, log, has_id, normalize,
  build_auth_response,
}
use certiva.Auth.Login.{LoginDto, login, login_found, login_failure, identifier_of, stored_password}
use certiva.Auth.Manage.{
  RegisterDto, UpdateAdminDto, AdminView, may_register, new_admin, create, register, updated, view,
  may_update, commit_update, admin_has_activity, update_admin, Activity, commit_delete,
  delete_admin, update_row, delete_row, required_admin,
}

-- One operation, called by `actor`.
pub data Step (v : Services) (t : Activity) (actor : Option JwtPayload) (s : Accounts)
    : Accounts → Type 0 where
  registered :
      (new_id : String) (dto : RegisterDto) (r : AuthResponse) {s' : Accounts}
      → register v new_id actor dto s ≡ ok (r, s')
      → Step v t actor s s'
  updated_by :
      (a : JwtPayload) (id : String) (dto : UpdateAdminDto) (r : AdminView) {s' : Accounts}
      → actor ≡ some a
      → update_admin a id dto s ≡ ok (r, s')
      → Step v t actor s s'
  deleted_by :
      (a : JwtPayload) (id r : String) {s' : Accounts}
      → actor ≡ some a
      → delete_admin t a id s ≡ ok (r, s')
      → Step v t actor s s'
  logged_in : (dto : LoginDto) → Step v t actor s (login v dto s).1

-- Any number of operations, by any actors.
pub data Steps (v : Services) (t : Activity) (s : Accounts) : Accounts → Type 0 where
  start : Steps v t s s
  step :
      {s' s'' : Accounts} (actor : Option JwtPayload)
      → Steps v t s s'
      → Step v t actor s' s''
      → Steps v t s s''

-- What an update that returned has checked, and what it did.
pub record Updating (actor : JwtPayload) (id : String) (dto : UpdateAdminDto) (s s' : Accounts)
    : Type 0 where
  pub existing : Admin
  pub found : find_first (has_id id) s.admins ≡ some existing
  pub allowed : may_update actor existing id dto s.admins ≡ ok tt
  pub rows : s'.admins ≡ update_row (has_id id) (updated dto) s.admins

abbrev pair : {R : Type 0} → R → Accounts → Result (R × Accounts)
pair r s = ok (r, s)

abbrev second : {R : Type 0} → Accounts → Result (R × Accounts) → Accounts
second d (ok (r, s)) = s
second d (err e) = d

module _ (actor : JwtPayload) (id : String) (dto : UpdateAdminDto) (s s' : Accounts)
    (r : AdminView) where
  checked_update :
      (a : Admin)
      → find_first (has_id id) s.admins ≡ some a
      → (u : Result (Unit {0})) → may_update actor a id dto s.admins ≡ u
      → (u >>= λ _. pair (view (updated dto a)) (commit_update actor a id dto s)) ≡ ok (r, s')
      → Updating actor id dto s s'
  unfolding commit_update log
  checked_update a found (ok u) m e = record {
    existing = a;
    found = found;
    allowed = m;
    rows = sym (ap (λ z. (second s z).admins) e);
  }
  checked_update a found (err x) m e = cc

  found_update :
      (g : Result (Unit {0})) (o : Option Admin)
      → find_first (has_id id) s.admins ≡ o
      → (g >>= λ _. required_admin o >>= λ a. may_update actor a id dto s.admins >>= λ _.
          pair (view (updated dto a)) (commit_update actor a id dto s))
        ≡ ok (r, s')
      → Updating actor id dto s s'
  found_update (err x) o found e = cc
  found_update (ok u) none found e = cc
  found_update (ok u) (some a) found e =
      checked_update a found (may_update actor a id dto s.admins) refl e

  pub update_admin-Updating : update_admin actor id dto s ≡ ok (r, s') → Updating actor id dto s s'
  unfolding update_admin
  update_admin-Updating e = found_update _ _ refl e

-- What a deletion that returned has checked, and what it did.
pub record Deleting (actor : JwtPayload) (id : String) (s s' : Accounts) : Type 0 where
  pub existing : Admin
  pub found : find_first (has_id id) s.admins ≡ some existing
  pub allowed : (is_owner existing.role && not (is_owner actor.role)) ≡ false
  pub inactive : existing.active ≡ false
  pub rows : s'.admins ≡ delete_row (has_id id) s.admins

module _ (actor : JwtPayload) (id : String) (s s' : Accounts) (r : String) where
  checked_delete :
      (a : Admin) (g h k : Bool)
      → find_first (has_id id) s.admins ≡ some a
      → (is_owner a.role && not (is_owner actor.role)) ≡ g
      → a.active ≡ h
      → (guard (not g) "Cannot delete an OWNER account" >>= λ _.
          guard (not h) "Deactivate account before deleting" >>= λ _.
          guard k "Cannot delete account with existing activity" >>= λ _.
          pair id (commit_delete actor id s))
        ≡ ok (r, s')
      → Deleting actor id s s'
  unfolding commit_delete log
  checked_delete a false false true found g h e = record {
    existing = a;
    found = found;
    allowed = g;
    inactive = h;
    rows = sym (ap (λ z. (second s z).admins) e);
  }
  checked_delete a true h k found g x e = cc
  checked_delete a false true k found g x e = cc
  checked_delete a false false false found g x e = cc

  found_delete :
      (t : Activity) (g : Result (Unit {0})) (o : Option Admin)
      → find_first (has_id id) s.admins ≡ o
      → (g >>= λ _. required_admin o >>= λ a.
          guard
            (not (is_owner a.role && not (is_owner actor.role)))
            "Cannot delete an OWNER account"
          >>= λ _. guard (not a.active) "Deactivate account before deleting" >>= λ _.
              guard (not (admin_has_activity t a)) "Cannot delete account with existing activity"
              >>= λ _. pair id (commit_delete actor id s))
        ≡ ok (r, s')
      → Deleting actor id s s'
  found_delete t (err x) o found e = cc
  found_delete t (ok u) none found e = cc
  found_delete t (ok u) (some a) found e = checked_delete a _ _ _ found refl refl e

  pub delete_admin-Deleting :
      (t : Activity) → delete_admin t actor id s ≡ ok (r, s') → Deleting actor id s s'
  unfolding delete_admin
  delete_admin-Deleting t e = found_delete t _ _ refl e

-- What a registration that returned has checked, and what it did.
pub record Registering (actor : Option JwtPayload) (s s' : Accounts) : Type 0 where
  pub created : Admin
  pub allowed : may_register actor created.role ≡ true
  pub rows : s'.admins ≡ s.admins ++ created ∷ []

module _ (v : Services) (new_id : String) (actor : Option JwtPayload) (dto : RegisterDto)
    (s s' : Accounts) (r : AuthResponse) where
  created_admin :
      (g : Bool) (h : Result (Unit {0})) (i : Result Issuer)
      → may_register actor (or_else dto.role admin) ≡ g
      → (guard g "Only an OWNER can create OWNER or SUPER_ADMIN accounts" >>= λ _. h >>= λ _.
          i >>= λ x.
          pair
            (build_auth_response v.sign (new_admin v new_id (normalize dto.username) dto x))
            (create (new_admin v new_id (normalize dto.username) dto x) actor s))
        ≡ ok (r, s')
      → Registering actor s s'
  unfolding create log
  created_admin true (ok u) (ok x) g e = record {
    created = new_admin v new_id (normalize dto.username) dto x;
    allowed = g;
    rows = sym (ap (λ z. (second s z).admins) e);
  }
  created_admin false h i g e = cc
  created_admin true (err x) i g e = cc
  created_admin true (ok u) (err x) g e = cc

  pub register-Registering : register v new_id actor dto s ≡ ok (r, s') → Registering actor s s'
  unfolding register
  register-Registering e = created_admin _ _ _ refl e

pub login_admins :
    (v : Services) (dto : LoginDto) (s : Accounts) → (login v dto s).1.admins ≡ s.admins
unfolding login login_found login_failure log
login_admins v dto s = go (identifier_of dto === "") (find_first _ s.admins)
  where
    go :
        (empty : Bool) (o : Option Admin)
        → (if empty
            then (err "Invalid credentials", s)
            else login_found v o (v.compare dto.password (stored_password o)) s).1.admins
          ≡ s.admins
    go true o = refl
    go false none = refl
    go false (some a) = ground arith
