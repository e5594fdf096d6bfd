-- ===== src/Auth/Login.antt =====
-- `Authenticate` of internal/auth/auth.go and the lock it puts on an account.
use quetzalog.Base.{
  ℕ, ◌+◌, Bool, false, not, List, Text, if◌then◌else◌, Option, none, some, ltb, leb,
}
use quetzalog.Auth.Tables.{
  User, Tables, invalid_credentials, account_disabled, Reply, answered, refused, get_user,
  get_user_by_username, update_users,
}
use quetzalog.Auth.Users.{Crypto, with_users}

-- 15 minutes in nanoseconds.
abbrev pub lock_time : ℕ
lock_time = 900000000000

abbrev pub max_failures : ℕ
max_failures = 5

-- The time of the check of the lock, and the later one of the update.
pub record Attempt : Type 0 where
  pub username : Text
  pub password : Text
  pub now : ℕ
  pub later : ℕ

abbrev pub is_locked : ℕ → Option ℕ → Bool
is_locked now none = false
is_locked now (some until) = ltb now until

-- The row behind one more failure, the count read being `n`.
abbrev pub count_failure : ℕ → ℕ → User → User
count_failure now n user =
    if leb max_failures (n + 1)
    then record user {
      failed_login = n + 1;
      locked_until = some (now + lock_time);
      updated_at = now;
    }
    else record user { failed_login = n + 1; updated_at = now }

abbrev pub count_failure_of : ℕ → Text → Option User → List User → List User
count_failure_of now id none users = users
count_failure_of now id (some user) users =
    update_users id (count_failure now user.failed_login) users

-- `incrementFailedLogins`.
unfoldable pub increment_failed_logins : ℕ → Text → Tables → Tables
unfolding update_users get_user
increment_failed_logins now id tables =
    with_users (count_failure_of now id (get_user id tables.users) tables.users) tables

abbrev pub logged_in : ℕ → User → User
logged_in now user = record user {
  failed_login = 0;
  last_login_at = some now;
  locked_until = none;
  updated_at = now;
}

module _ (crypto : Crypto) where
  abbrev pub authenticate_as : Attempt → Option User → Tables → Tables × Reply User
  authenticate_as attempt none tables = (tables, refused invalid_credentials)
  authenticate_as attempt (some user) tables =
      if not user.enabled
      then (tables, refused account_disabled)
      else if is_locked attempt.now user.locked_until
      then (tables, refused account_disabled)
      else if not (crypto.check_password user.password_hash attempt.password)
      then (increment_failed_logins attempt.later user.id tables, refused invalid_credentials)
      else (
        with_users (update_users user.id (logged_in attempt.later) tables.users) tables,
        answered (record user { last_login_at = some attempt.later }),
      )

  -- `Authenticate`.
  unfoldable pub authenticate : Attempt → Tables → Tables × Reply User
  unfolding get_user_by_username increment_failed_logins update_users
  authenticate attempt tables =
      authenticate_as attempt (get_user_by_username attempt.username tables.users) tables
