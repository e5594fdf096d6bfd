-- ===== src/Auth/Shut/Calls.antt =====
-- That a disabled account of internal/auth/auth.go stays shut out under its calls.
use quetzalog.Base.{
  any_row, ℕ, true, false, List, [], ◌∷◌, ◌≡◌, ◌≢◌, refl, ◌∙◌, Text, codes, equal, equal_iff, arith,
  none, some, Option-cases, inl, inr,
}
use quetzalog.Auth.Tables.{
  User, Token, Tables, answered, get_user, get_user_by_username, update_users,
}
use quetzalog.Auth.Rows.{any_row-update_users}
use quetzalog.Auth.Users.{
  Crypto, create_user, ensure_default_admin, update_password, disable_user, delete_user,
  update_user_role, enable_user, update_user, or_viewer, pinned,
}
use quetzalog.Auth.Login.{Attempt, authenticate}
use quetzalog.Auth.Tokens.{
  revoke, split_space, log_audit, create_api_token, revoke_api_token_by_value, validate_api_token,
  auth_middleware,
}
use quetzalog.Auth.Requests.{
  Request, ensure, create, log_in, set_password, delete, set_role, enable, disable, change, grant,
  revoke_id, revoke_value, audit, after_request, after_requests,
}
use quetzalog.Auth.Shut.{
  IsShut, as_user-IsShut, changed-IsShut, disable-IsShut, is_there, insert_hashed-IsShut, is_open,
  reopened, reopens, same_users-IsShut, set_hash-IsShut, set_users-IsShut,
}

module _ (id : Text) where
  module _ (crypto : Crypto) where
    after_request-IsShut :
        (r : Request) (tables : Tables)
        → reopens id r ≡ false
        → IsShut id tables
        → IsShut id (after_request crypto r tables)
    unfolding after_request reopens ensure_default_admin create_user authenticate update_password
        delete_user disable_user update_user_role enable_user update_user create_api_token revoke
        revoke_api_token_by_value log_audit
    after_request-IsShut (ensure fresh password random) tables h k = ground (
      arith,
      insert_hashed-IsShut id fresh (codes "admin") (codes "admin")
          (crypto.hash_password fresh.salt (pinned password random)) tables k,
    )
    after_request-IsShut (create fresh username password role) tables h k = ground (
      arith,
      insert_hashed-IsShut id fresh username (or_viewer role)
          (crypto.hash_password fresh.salt password) tables k,
    )
    after_request-IsShut (log_in attempt) tables h k =
        as_user-IsShut id crypto attempt (get_user_by_username attempt.username tables.users) tables
          k
    after_request-IsShut (set_password fresh other password) tables h k =
        ground (
          arith,
          set_hash-IsShut id fresh other (crypto.hash_password fresh.salt password) tables k,
        )
    after_request-IsShut (delete now other) tables h k =
        ground (arith, disable-IsShut id now other tables k)
    after_request-IsShut (set_role now other role) tables h k = ground (
      arith,
      set_users-IsShut id other (λ u. record u { role = role; updated_at = now }) tables (λ u. refl)
          (λ u e shut. shut) k,
    )
    after_request-IsShut (enable now other) tables h k =
        set_users-IsShut id other
          (λ u. record u {
            enabled = true;
            locked_until = none;
            failed_login = 0;
            updated_at = now;
          })
          tables (λ u. refl) (λ u e shut. cc) k
    after_request-IsShut (disable now other) tables h k = disable-IsShut id now other tables k
    after_request-IsShut (change now other username role enabled) tables h k =
        ground (arith, changed-IsShut id now other username role enabled tables h k)
    after_request-IsShut (grant fresh random user_id name) tables h k =
        same_users-IsShut id (create_api_token crypto fresh random user_id name tables).0 tables
          (ground arith) k
    after_request-IsShut (revoke_id other) tables h k =
        same_users-IsShut id (revoke (λ t. equal t.id other) tables).0 tables refl k
    after_request-IsShut (revoke_value token) tables h k =
        same_users-IsShut id (revoke_api_token_by_value crypto token tables).0 tables refl k
    after_request-IsShut (audit fresh user_id action resource details ip) tables h k =
        same_users-IsShut id (log_audit fresh user_id action resource details ip tables).0 tables
          (ground arith) k

    after_requests-IsShut :
        (rs : List Request) (tables : Tables)
        → reopened id rs ≡ false
        → IsShut id tables
        → IsShut id (after_requests crypto rs tables)
    unfolding after_requests reopened
    after_requests-IsShut [] tables h k = k
    after_requests-IsShut (r ∷ rs) tables h k =
        after_requests-IsShut rs (after_request crypto r tables) (ground arith)
          (after_request-IsShut r tables (ground arith) k)

  all_disabled :
      (now : ℕ) (us : List User)
      → is_open id (update_users id (λ u. record u { enabled = false; updated_at = now }) us)
        ≡ false
  unfolding any_row update_users
  all_disabled now [] = refl
  all_disabled now (u ∷ us) = ground (arith, all_disabled now us)

  disable_user-IsShut :
      (now : ℕ) (tables : Tables)
      → is_there id tables.users ≡ true
      → IsShut id (disable_user now id tables).0
  unfolding disable_user IsShut
  disable_user-IsShut now tables h =
      let f = λ (u : User). record u { enabled = false; updated_at = now } in
      (
        any_row-update_users (λ u. equal u.id id) id f (λ u. refl) tables.users ∙ h,
        all_disabled now tables.users,
      )

  get_user-shut :
      (u : User) (us : List User)
      → is_open id us ≡ false
      → get_user id us ≡ some u
      → u.enabled ≡ false
  unfolding any_row get_user
  get_user-shut u [] h k = cc
  get_user-shut u (v ∷ us) h k = ground (arith, get_user-shut u us)

  by_username-shut :
      (name : Text) (u : User) (us : List User)
      → is_open id us ≡ false
      → get_user_by_username name us ≡ some u
      → u.id ≡ id
      → u.enabled ≡ false
  unfolding any_row get_user_by_username
  by_username-shut name u [] h k e = cc
  by_username-shut name u (v ∷ us) h k e =
      ground (arith, equal_iff v.id id, by_username-shut name u us)

  module _ (crypto : Crypto) (tables : Tables) (shut : IsShut id tables) where
    authenticate-shut :
        (attempt : Attempt) (u : User)
        → (authenticate crypto attempt tables).1 ≡ answered u
        → u.id ≢ id
    unfolding authenticate IsShut
    authenticate-shut attempt u h e =
        elim (Option-cases (get_user_by_username attempt.username tables.users)) [
          | inl n ↦ ground arith
          | inr (v, f) ↦ ground (arith, by_username-shut attempt.username v tables.users)
        ]

    auth_middleware-shut :
        (header : Text) (token : Text) (t : Token)
        → split_space header ≡ some (codes "Bearer", token)
        → validate_api_token crypto token tables ≡ answered t
        → t.user_id ≡ id
        → auth_middleware crypto header tables ≡ false
    unfolding auth_middleware IsShut
    auth_middleware-shut header token t h k e = elim (Option-cases (get_user id tables.users)) [
      | inl n ↦ ground arith
      | inr (v, f) ↦ ground (arith, get_user-shut v tables.users)
    ]

-- After `DisableUser` of an account there is, and any further calls but ones that enable it,
-- `Authenticate` answers with another account only, and the middleware stops each request with one
-- of its tokens.
pub disable_user-shuts_out :
    (crypto : Crypto) (id : Text) (now : ℕ) (tables : Tables) (rs : List Request)
    → any_row (λ u. equal u.id id) tables.users ≡ true
    → reopened id rs ≡ false
    → let after = after_requests crypto rs (disable_user now id tables).0 in
      ((attempt : Attempt) (u : User)
        → (authenticate crypto attempt after).1 ≡ answered u
        → u.id ≢ id)
      × ((header token : Text) (t : Token)
          → split_space header ≡ some (codes "Bearer", token)
          → validate_api_token crypto token after ≡ answered t
          → t.user_id ≡ id
          → auth_middleware crypto header after ≡ false)
disable_user-shuts_out crypto id now tables rs h k =
    let first = (disable_user now id tables).0 in
    let shut = after_requests-IsShut id crypto rs first k (disable_user-IsShut id now tables h) in
    (
      authenticate-shut id crypto (after_requests crypto rs first) shut,
      auth_middleware-shut id crypto (after_requests crypto rs first) shut,
    )
