-- ===== src/Auth/Shut.antt =====
-- That a disabled account of internal/auth/auth.go stays shut out.
pub mod Calls
use quetzalog.Base.{
  any_row, any_row-or, ℕ, Bool, true, false, ◌&&◌, ◌||◌, not, List, [], ◌∷◌, ◌++◌, ◌≡◌, ◌≢◌, refl,
  sym, ap, ◌∙◌, Text, codes, equal, equal_iff, arith, Option, none, some, Bool-cases, Option-cases,
  inl, inr, if◌then◌else◌, if_rule,
}
use quetzalog.Auth.Tables.{
  User, Token, Tables, Reply, answered, refused, get_user, get_user_by_username, update_users,
}
use quetzalog.Auth.Rows.{any_row-update_users}
use quetzalog.Auth.Users.{
  Crypto, Fresh, with_users, insert_user, insert_hashed, new_user, create_user,
  ensure_default_admin, update_password, set_hash, set_users, disable_user, delete_user,
  update_user_role, enable_user, update_user, changed, or_viewer, pinned,
}
use quetzalog.Auth.Login.{
  Attempt, authenticate, authenticate_as, logged_in, count_failure, count_failure_of,
  increment_failed_logins,
}
use quetzalog.Auth.Tokens.{
  revoke, split_space, log_audit, create_api_token, revoke_api_token_by_value, validate_api_token,
  auth_middleware,
}
use quetzalog.Auth.Requests.{
  Request, ensure, create, log_in, set_password, delete, set_role, enable, disable, change, grant,
  revoke_id, revoke_value, audit, after_request, after_requests,
}

-- Whether a call enables the account.
unfoldable pub reopens : Text → Request → Bool
reopens id (enable now other) = equal other id
reopens id (change now other username role (some true)) = equal other id
reopens id _ = false

unfoldable pub reopened : Text → List Request → Bool
unfolding reopens
reopened id [] = false
reopened id (r ∷ rs) = reopens id r || reopened id rs

module _ (id : Text) where
  abbrev pub is_there : List User → Bool
  is_there us = any_row (λ u. equal u.id id) us

  abbrev pub is_open : List User → Bool
  is_open us = any_row (λ u. equal u.id id && u.enabled) us

  -- There is such an account, and it is disabled.
  unfoldable pub IsShut : Tables → Type 0
  IsShut tables = (is_there tables.users ≡ true) × (is_open tables.users ≡ false)

  is_open-update_users :
      (other : Text) (f : User → User)
      → ((u : User) → (f u).id ≡ u.id)
      → ((u : User) → equal other id ≡ true → u.enabled ≡ false → (f u).enabled ≡ false)
      → (us : List User) → is_open us ≡ false
      → is_open (update_users other f us) ≡ false
  unfolding any_row update_users
  is_open-update_users other f same shut [] h = refl
  is_open-update_users other f same shut (u ∷ us) h = ground (
    arith,
    same u,
    shut u,
    equal_iff u.id other,
    equal_iff u.id id,
    equal_iff other id,
    is_open-update_users other f same shut us,
  )

  pub set_users-IsShut :
      (other : Text) (f : User → User) (tables : Tables)
      → ((u : User) → (f u).id ≡ u.id)
      → ((u : User) → equal other id ≡ true → u.enabled ≡ false → (f u).enabled ≡ false)
      → IsShut tables
      → IsShut (set_users other f tables).0
  unfolding IsShut
  set_users-IsShut other f tables same shut h = (
    any_row-update_users (λ u. equal u.id id) other f (λ u. ap (λ x. equal x id) (same u))
          tables.users
        ∙ h.0,
    is_open-update_users other f same shut tables.users h.1,
  )

  pub same_users-IsShut : (a b : Tables) → a.users ≡ b.users → IsShut b → IsShut a
  unfolding IsShut
  same_users-IsShut a b e h = rw e h

  is_there-new :
      (new : Text) (us : List User)
      → any_row (λ u. equal u.id new) us ≡ false
      → is_there us ≡ true
      → equal new id ≡ false
  unfolding any_row
  is_there-new new [] h k = cc
  is_there-new new (u ∷ us) h k =
      ground (arith, equal_iff new id, equal_iff u.id id, equal_iff u.id new, is_there-new new us)

  insert_user-IsShut :
      (u : User) (tables : Tables) → IsShut tables → IsShut (insert_user u tables).0
  unfolding IsShut insert_user any_row
  insert_user-IsShut u tables h = ground (
    arith,
    any_row-or (λ v. equal v.id u.id) (λ v. equal v.username u.username) tables.users,
    is_there-new u.id tables.users,
  )

  pub insert_hashed-IsShut :
      (fresh : Fresh) (username role : Text) (hash : Option Text) (tables : Tables)
      → IsShut tables
      → IsShut (insert_hashed fresh username role hash tables).0
  insert_hashed-IsShut fresh username role none tables h = h
  insert_hashed-IsShut fresh username role (some hash) tables h =
      insert_user-IsShut (new_user fresh username hash role) tables h

  pub set_hash-IsShut :
      (fresh : Fresh) (other : Text) (hash : Option Text) (tables : Tables)
      → IsShut tables
      → IsShut (set_hash fresh other hash tables).0
  set_hash-IsShut fresh other none tables h = h
  set_hash-IsShut fresh other (some hash) tables h =
      set_users-IsShut other (λ u. record u { password_hash = hash; updated_at = fresh.now }) tables
        (λ u. refl) (λ u e shut. shut) h

  pub disable-IsShut :
      (now : ℕ) (other : Text) (tables : Tables)
      → IsShut tables
      → IsShut (disable_user now other tables).0
  unfolding disable_user
  disable-IsShut now other tables h =
      set_users-IsShut other (λ u. record u { enabled = false; updated_at = now }) tables
        (λ u. refl) (λ u e shut. refl) h

  failure-IsShut :
      (now : ℕ) (other : Text) (found : Option User) (tables : Tables)
      → IsShut tables
      → IsShut (with_users (count_failure_of now other found tables.users) tables)
  failure-IsShut now other none tables h = h
  failure-IsShut now other (some u) tables h =
      set_users-IsShut other (count_failure now u.failed_login) tables (λ v. ground arith)
        (λ v e shut. ground arith) h

  pub as_user-IsShut :
      (crypto : Crypto) (attempt : Attempt) (found : Option User) (tables : Tables)
      → IsShut tables
      → IsShut (authenticate_as crypto attempt found tables).0
  unfolding increment_failed_logins
  as_user-IsShut crypto attempt none tables h = h
  as_user-IsShut crypto attempt (some u) tables h = ground (
    arith,
    failure-IsShut attempt.later u.id (get_user u.id tables.users) tables h,
    set_users-IsShut u.id (logged_in attempt.later) tables (λ v. refl) (λ v e shut. shut) h,
  )

  pub changed-IsShut :
      (now : ℕ) (other username role : Text) (enabled : Option Bool) (tables : Tables)
      → reopens id (change now other username role enabled) ≡ false
      → IsShut tables
      → IsShut (set_users other (changed now username role enabled) tables).0
  unfolding reopens
  changed-IsShut now other username role none tables h k =
      set_users-IsShut other (changed now username role none) tables (λ u. refl) (λ u e shut. shut)
        k
  changed-IsShut now other username role (some false) tables h k =
      set_users-IsShut other (changed now username role (some false)) tables (λ u. refl)
        (λ u e shut. refl) k
  changed-IsShut now other username role (some true) tables h k =
      set_users-IsShut other (changed now username role (some true)) tables (λ u. refl)
        (λ u e shut. cc) k
