-- ===== src/Auth/Tables.antt =====
-- The tables of internal/auth/auth.go and what its statements read and write in them. The
-- constraints of the schema are written out; the other failures of the database are left out.
use quetzalog.Base.{
  ℕ, Bool, false, List, [], ◌∷◌, Text, codes, equal, one_of, if◌then◌else◌, Option, none, some,
}

pub record User : Type 0 where
  pub id : Text
  pub username : Text
  pub password_hash : Text
  pub role : Text
  pub enabled : Bool
  pub last_login_at : Option ℕ
  pub failed_login : ℕ
  pub locked_until : Option ℕ
  pub created_at : ℕ
  pub updated_at : ℕ

pub record Token : Type 0 where
  pub id : Text
  pub token_hash : Text
  pub user_id : Text
  pub name : Text
  pub enabled : Bool
  pub created_at : ℕ

pub record AuditLog : Type 0 where
  pub id : Text
  pub user_id : Text
  pub action : Text
  pub resource : Text
  pub details : Text
  pub ip : Text
  pub created_at : ℕ

-- The rows, those inserted last in front.
pub record Tables : Type 0 where
  pub users : List User
  pub tokens : List Token
  pub audit : List AuditLog

-- The errors that have a name, and `failed` for those that wrap another.
pub data AuthError : Type 0 where
  invalid_credentials : AuthError
  account_disabled : AuthError
  user_not_found : AuthError
  user_exists : AuthError
  invalid_role : AuthError
  password_too_short : AuthError
  user_is_admin : AuthError
  token_not_found : AuthError
  token_revoked : AuthError
  failed : AuthError

pub data Reply (A : Type 0) : Type 0 where
  answered : A → Reply A
  refused : AuthError → Reply A

abbrev pub role_admin : Text
role_admin = codes "admin"

abbrev pub role_analyst : Text
role_analyst = codes "analyst"

abbrev pub role_viewer : Text
role_viewer = codes "viewer"

unfoldable pub is_role : Text → Bool
is_role role = one_of (role_admin ∷ role_analyst ∷ role_viewer ∷ []) role

-- `SELECT ... FROM users WHERE id = ?`, and by the username.
unfoldable pub get_user : Text → List User → Option User
get_user id [] = none
get_user id (user ∷ users) =
    let rest = get_user id users in if equal user.id id then some user else rest

unfoldable pub get_user_by_username : Text → List User → Option User
get_user_by_username username [] = none
get_user_by_username username (user ∷ users) =
    let rest = get_user_by_username username users in
    if equal user.username username then some user else rest

-- `UPDATE users SET ... WHERE id = ?`.
unfoldable pub update_users : Text → (User → User) → List User → List User
update_users id f [] = []
update_users id f (user ∷ users) =
    (if equal user.id id then f user else user) ∷ update_users id f users

unfoldable pub get_token_by_hash : Text → List Token → Option Token
get_token_by_hash hash [] = none
get_token_by_hash hash (token ∷ tokens) =
    let rest = get_token_by_hash hash tokens in
    if equal token.token_hash hash then some token else rest

-- `UPDATE api_tokens SET enabled = 0 WHERE ...`.
unfoldable pub revoke_where : (Token → Bool) → List Token → List Token
revoke_where test [] = []
revoke_where test (token ∷ tokens) =
    (if test token then record token { enabled = false } else token) ∷ revoke_where test tokens
