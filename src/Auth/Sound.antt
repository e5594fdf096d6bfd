-- ===== src/Auth/Sound.antt =====
-- The invariant of the tables of internal/auth/auth.go under all of its calls.
pub mod Accounts
pub mod Calls
use quetzalog.Base.{
  any_row, All, IsKey, any_row-or, All-map, ℕ, ◌+◌, Bool, true, false, ◌&&◌, ◌||◌, not, List, [],
  ◌∷◌, ◌++◌, ◌≡◌, refl, sym, ap, ◌∙◌, Text, codes, equal, one_of, equal_iff, arith, Option, none,
  some, Bool-cases, inl, inr, if◌then◌else◌, if_rule, leb,
}
use quetzalog.Auth.Tables.{
  User, Token, Tables, Reply, answered, refused, failed, user_exists, user_is_admin, invalid_role,
  password_too_short, invalid_credentials, account_disabled, role_admin, role_viewer, is_role,
  get_user, get_user_by_username, update_users, revoke_where,
}
use quetzalog.Auth.Rows.{
  any_row-update_users, update_users-none, update_users-IsKey, All-update_users, revoke_where-IsKey,
  All-revoke_where,
}
use quetzalog.Auth.Renamed.{renamed-IsKey}
use quetzalog.Auth.Users.{
  Crypto, Fresh, with_users, new_user, insert_user, insert_hashed, or_viewer, create_user,
  ensure_default_admin, update_password, set_hash, pinned, set_users, disable_user, delete_user,
  update_user_role, enable_user, update_user, or_old, name_taken, changed,
}
use quetzalog.Auth.Login.{
  Attempt, authenticate, authenticate_as, logged_in, max_failures, count_failure, count_failure_of,
  increment_failed_logins,
}
use quetzalog.Auth.Tokens.{
  revoke, revoke_api_token, log_audit, create_api_token, revoke_api_token_by_value,
}
use quetzalog.Auth.Requests.{
  Request, ensure, create, log_in, set_password, delete, set_role, enable, disable, change, grant,
  revoke_id, revoke_value, audit, after_request, after_requests,
}

abbrev is_set : Option ℕ → Bool
is_set none = false
is_set (some t) = true

-- An account has one of the roles, and a lock exactly when it counts five failures or more.
unfoldable pub IsAccount : User → Type 0
unfolding is_role
IsAccount u = (is_role u.role ≡ true) × (is_set u.locked_until ≡ leb max_failures u.failed_login)

-- Identifiers, usernames and hashes of tokens are keys, and every token is of a user.
pub record IsSound (tables : Tables) : Type 0 where
  pub user_ids : IsKey (λ u. u.id) tables.users
  pub usernames : IsKey (λ u. u.username) tables.users
  pub accounts : All IsAccount tables.users
  pub token_ids : IsKey (λ t. t.id) tables.tokens
  pub token_hashes : IsKey (λ t. t.token_hash) tables.tokens
  pub owners : All (λ t. any_row (λ u. equal u.id t.user_id) tables.users ≡ true) tables.tokens

pub LeavesSound : {A : Type 0} → Tables × Reply A → Type 0
LeavesSound r = IsSound r.0

pub stays :
    {A : Type 0} {tables : Tables} → IsSound tables → (r : Reply A) → LeavesSound (tables, r)
unfolding LeavesSound
stays s r = s

pub insert_user-IsSound :
    (u : User) (tables : Tables) → IsAccount u → IsSound tables → LeavesSound (insert_user u tables)
unfolding LeavesSound insert_user IsKey any_row
insert_user-IsSound u tables a s =
    if_rule LeavesSound (any_row (λ v. equal v.id u.id || equal v.username u.username) tables.users)
      (tables, refused failed) (with_users (u ∷ tables.users) tables, answered tt) (λ _. s)
      (λ h.
        let free =
          any_row-or (λ v. equal v.id u.id) (λ v. equal v.username u.username) tables.users h in
        record {
          user_ids = (free.0, s.user_ids);
          usernames = (free.1, s.usernames);
          accounts = (a, s.accounts);
          token_ids = s.token_ids;
          token_hashes = s.token_hashes;
          owners =
              All-map (λ t. any_row (λ v. equal v.id t.user_id) tables.users ≡ true)
                (λ t. any_row (λ v. equal v.id t.user_id) (u ∷ tables.users) ≡ true)
                (λ t k. ground arith) tables.tokens s.owners;
        })

-- An update that keeps identifiers, and of the row found makes an account.
module _ (id : Text) (f : User → User) (same : (u : User) → (f u).id ≡ u.id) (tables : Tables)
    (s : IsSound tables) where
  pub renaming-IsSound :
      ((u : User) → get_user id tables.users ≡ some u → IsAccount u → IsAccount (f u))
      → IsKey (λ u. u.username) (update_users id f tables.users)
      → LeavesSound (set_users id f tables)
  unfolding LeavesSound
  renaming-IsSound keeps names = record {
    user_ids = update_users-IsKey (λ u. u.id) id f same tables.users s.user_ids;
    usernames = names;
    accounts = All-update_users IsAccount id f tables.users s.user_ids keeps s.accounts;
    token_ids = s.token_ids;
    token_hashes = s.token_hashes;
    owners =
        All-map (λ t. any_row (λ u. equal u.id t.user_id) tables.users ≡ true)
          (λ t. any_row (λ u. equal u.id t.user_id) (update_users id f tables.users) ≡ true)
          (λ t k.
            any_row-update_users (λ u. equal u.id t.user_id) id f
              (λ u. ap (λ x. equal x t.user_id) (same u)) tables.users
            ∙ k)
          tables.tokens s.owners;
  }

  pub set_users-IsSound :
      ((u : User) → (f u).username ≡ u.username)
      → ((u : User) → get_user id tables.users ≡ some u → IsAccount u → IsAccount (f u))
      → LeavesSound (set_users id f tables)
  set_users-IsSound names keeps =
      renaming-IsSound keeps
        (update_users-IsKey (λ u. u.username) id f names tables.users s.usernames)
