-- ===== src/Auth/Grants.antt =====
-- What a token and a password of internal/auth/auth.go give access to.
use quetzalog.Base.{
  true, false, ◌++◌, ◌≡◌, refl, Text, codes, equal, equal_iff, arith, some, Option-cases, inl, inr,
}
use quetzalog.Auth.Tables.{
  User, Token, Tables, answered, get_user, get_user_by_username, get_token_by_hash,
}
use quetzalog.Auth.Users.{Crypto, Fresh}
use quetzalog.Auth.Lockout.{get_user_by_username-update_users}
use quetzalog.Auth.Login.{Attempt, authenticate, is_locked, logged_in}
use quetzalog.Auth.Tokens.{create_api_token, validate_api_token, auth_middleware}

module _ (crypto : Crypto) (fresh : Fresh) (random user_id name secret : Text)
    (tables : Tables) where
  new_token : Token
  new_token = record {
    id = fresh.id;
    token_hash = crypto.hash_token secret;
    user_id = user_id;
    name = name;
    enabled = true;
    created_at = fresh.now;
  }

  validate_new :
      (create_api_token crypto fresh random user_id name tables).1 ≡ answered secret
      → validate_api_token crypto secret
          (create_api_token crypto fresh random user_id name tables).0
        ≡ answered new_token
  unfolding create_api_token validate_api_token new_token get_token_by_hash
  validate_new h = ground (arith, equal_iff (crypto.hash_token secret) (crypto.hash_token secret))

  create_users : (create_api_token crypto fresh random user_id name tables).0.users ≡ tables.users
  unfolding create_api_token
  create_users = ground arith

  -- The secret that `CreateAPIToken` answers for a user, sent as a bearer token, is found as a token
  -- of the user and passes the middleware exactly when the user's account is enabled.
  pub create_api_token-auth_middleware :
      (user : User)
      → get_user user_id tables.users ≡ some user
      → (create_api_token crypto fresh random user_id name tables).1 ≡ answered secret
      → let after = (create_api_token crypto fresh random user_id name tables).0 in
        ((t : Token) × (validate_api_token crypto secret after ≡ answered t)
          × (t.user_id ≡ user_id))
        × (auth_middleware crypto (codes "Bearer " ++ secret) after ≡ user.enabled)
  unfolding auth_middleware equal new_token
  create_api_token-auth_middleware user g h =
      ((new_token, validate_new h, refl), rw (validate_new h, create_users, g) refl)

module _ (crypto : Crypto) (attempt : Attempt) (tables : Tables) (u : User) where
  -- When `Authenticate` answers with a user, the account with the name asked for is enabled, has no
  -- lock at that time and has the password given; the user is its row with the time of this login;
  -- and behind the call it counts no failures, has no lock
  -- and has the time of this login.
  pub authenticate-answered :
      (authenticate crypto attempt tables).1 ≡ answered u
      → (row : User) × (get_user_by_username attempt.username tables.users ≡ some row)
        × (u ≡ record row { last_login_at = some attempt.later })
        × (row.enabled ≡ true)
        × (is_locked attempt.now row.locked_until ≡ false)
        × (crypto.check_password row.password_hash attempt.password ≡ true)
        × (get_user_by_username attempt.username (authenticate crypto attempt tables).0.users
            ≡ some (logged_in attempt.later row))
  unfolding authenticate
  authenticate-answered h =
      elim (Option-cases (get_user_by_username attempt.username tables.users)) [
        | inl n ↦ absurd (ground arith)
        | inr (v, f) ↦ (
          v,
          f,
          ground arith,
          ground arith,
          ground arith,
          ground arith,
          ground (
            arith,
            get_user_by_username-update_users (logged_in attempt.later) (λ w. (refl, refl))
                attempt.username v tables.users,
          ),
        )
      ]
