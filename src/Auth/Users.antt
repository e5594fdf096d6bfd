-- ===== src/Auth/Users.antt =====
-- The accounts of internal/auth/auth.go. bcrypt is a parameter, with its salt as an argument of the
-- call, as are the identifier that `GenerateEventID` makes and the time.
use quetzalog.Base.{
  any_row, ℕ, Bool, true, false, ◌&&◌, ◌||◌, not, List, [], ◌∷◌, ◌++◌, Text, codes, equal,
  if◌then◌else◌, Option, none, some, ltb, length,
}
use quetzalog.Spl.Parser.Source.{utf8}
use quetzalog.Auth.Tables.{
  User, Tables, user_exists, invalid_role, password_too_short, user_is_admin, failed, Reply,
  answered, refused, role_admin, role_viewer, is_role, update_users,
}

pub record Crypto : Type 0 where
  pub hash_password : Text → Text → Option Text
  pub check_password : Text → Text → Bool
  pub hash_token : Text → Text

-- What a call takes from outside: a new identifier, a salt and the time.
pub record Fresh : Type 0 where
  pub id : Text
  pub salt : Text
  pub now : ℕ

abbrev pub is_short : Text → Bool
is_short password = ltb (length (utf8 password)) 4

abbrev pub with_users : List User → Tables → Tables
with_users users tables = record tables { users = users }

abbrev pub new_user : Fresh → Text → Text → Text → User
new_user fresh username hash role = record {
  id = fresh.id;
  username = username;
  password_hash = hash;
  role = role;
  enabled = true;
  last_login_at = none;
  failed_login = 0;
  locked_until = none;
  created_at = fresh.now;
  updated_at = fresh.now;
}

-- `INSERT INTO users`, under the primary key and the unique username.
unfoldable pub insert_user : User → Tables → Tables × Reply (Unit {0})
unfolding any_row
insert_user user tables =
    if any_row (λ u. equal u.id user.id || equal u.username user.username) tables.users
    then (tables, refused failed)
    else (with_users (user ∷ tables.users) tables, answered tt)

abbrev pub insert_hashed : Fresh → Text → Text → Option Text → Tables → Tables × Reply (Unit {0})
insert_hashed fresh username role none tables = (tables, refused failed)
insert_hashed fresh username role (some hash) tables =
    insert_user (new_user fresh username hash role) tables

abbrev pub or_viewer : Text → Text
or_viewer [] = role_viewer
or_viewer (c ∷ s) = c ∷ s

abbrev pub pinned : Option Text → Text → Text
pinned none random = codes "qz_" ++ random
pinned (some []) random = codes "qz_" ++ random
pinned (some (c ∷ s)) random = c ∷ s

abbrev pub set_hash : Fresh → Text → Option Text → Tables → Tables × Reply (Unit {0})
set_hash fresh id none tables = (tables, refused failed)
set_hash fresh id (some hash) tables = (
  with_users
      (update_users id (λ u. record u { password_hash = hash; updated_at = fresh.now })
        tables.users)
      tables,
  answered tt,
)

module _ (crypto : Crypto) where
  -- `CreateUser`.
  unfoldable pub create_user : Fresh → Text → Text → Text → Tables → Tables × Reply (Unit {0})
  unfolding insert_user any_row is_role utf8
  create_user fresh username password role tables =
      if is_short password
      then (tables, refused password_too_short)
      else if not (is_role (or_viewer role))
      then (tables, refused invalid_role)
      else if any_row (λ u. equal u.username username) tables.users
      then (tables, refused user_exists)
      else insert_hashed fresh username (or_viewer role) (crypto.hash_password fresh.salt password)
          tables

  -- `ensureDefaultAdmin`, on the environment's password and the digits of 16 random bytes.
  unfoldable pub ensure_default_admin :
      Fresh → Option Text → Text → Tables → Tables × Reply (Unit {0})
  unfolding insert_user any_row
  ensure_default_admin fresh password random tables =
      if any_row (λ u. true) tables.users
      then (tables, answered tt)
      else insert_hashed fresh (codes "admin") role_admin
          (crypto.hash_password fresh.salt (pinned password random)) tables

  -- `UpdatePassword`.
  unfoldable pub update_password : Fresh → Text → Text → Tables → Tables × Reply (Unit {0})
  unfolding update_users utf8
  update_password fresh id password tables =
      if is_short password
      then (tables, refused password_too_short)
      else set_hash fresh id (crypto.hash_password fresh.salt password) tables

-- `UPDATE users` with what one call sets.
abbrev pub set_users : Text → (User → User) → Tables → Tables × Reply (Unit {0})
set_users id f tables = (with_users (update_users id f tables.users) tables, answered tt)

-- `DisableUser`.
unfoldable pub disable_user : ℕ → Text → Tables → Tables × Reply (Unit {0})
unfolding update_users
disable_user now id = set_users id (λ u. record u { enabled = false; updated_at = now })

-- `DeleteUser`, which disables.
unfoldable pub delete_user : ℕ → Text → Tables → Tables × Reply (Unit {0})
unfolding update_users any_row
delete_user now id tables =
    if not (any_row (λ u. equal u.role role_admin && not (equal u.id id)) tables.users)
      || not (any_row (λ u. not (equal u.id id)) tables.users)
    then (tables, refused user_is_admin)
    else set_users id (λ u. record u { enabled = false; updated_at = now }) tables

-- `UpdateUserRole`.
unfoldable pub update_user_role : ℕ → Text → Text → Tables → Tables × Reply (Unit {0})
unfolding update_users is_role
update_user_role now id role tables =
    if is_role role
    then set_users id (λ u. record u { role = role; updated_at = now }) tables
    else (tables, refused invalid_role)

-- `EnableUser`.
unfoldable pub enable_user : ℕ → Text → Tables → Tables × Reply (Unit {0})
unfolding update_users
enable_user now id =
    set_users id
      (λ u. record u { enabled = true; locked_until = none; failed_login = 0; updated_at = now })

abbrev pub or_old : Text → Text → Text
or_old old [] = old
or_old old (c ∷ s) = c ∷ s

abbrev pub or_same : Bool → Option Bool → Bool
or_same old none = old
or_same old (some b) = b

-- Whether the unique username stops `UpdateUser`.
abbrev pub name_taken : Text → Text → List User → Bool
name_taken id username users =
    not (equal username [])
    && (any_row (λ u. equal u.id id) users
        && any_row (λ u. equal u.username username && not (equal u.id id)) users)

abbrev pub is_unset : Option Bool → Bool
is_unset none = true
is_unset (some b) = false

-- The columns that `UpdateUser` sets.
abbrev pub changed : ℕ → Text → Text → Option Bool → User → User
changed now username role enabled u = record u {
  username = or_old u.username username;
  role = or_old u.role role;
  enabled = or_same u.enabled enabled;
  updated_at = now;
}

-- `UpdateUser`; the empty username and role, and no `enabled`, leave the column alone.
unfoldable pub update_user :
    ℕ → Text → Text → Text → Option Bool → Tables → Tables × Reply (Unit {0})
unfolding update_users any_row is_role
update_user now id username role enabled tables =
    if equal username [] && (equal role [] && is_unset enabled)
    then (tables, answered tt)
    else if not (equal role []) && not (is_role role)
    then (tables, refused invalid_role)
    else if name_taken id username tables.users
    then (tables, refused failed)
    else set_users id (changed now username role enabled) tables
