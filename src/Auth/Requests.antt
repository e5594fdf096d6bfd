-- ===== src/Auth/Requests.antt =====
-- The calls that change the tables of internal/auth/auth.go, as values, and runs of them.
use quetzalog.Base.{ℕ, Bool, List, [], ◌∷◌, Text, Option}
use quetzalog.Auth.Tables.{Tables}
use quetzalog.Auth.Users.{
  Crypto, Fresh, create_user, ensure_default_admin, update_password, disable_user, delete_user,
  update_user_role, enable_user, update_user,
}
use quetzalog.Auth.Login.{Attempt, authenticate}
use quetzalog.Auth.Tokens.{revoke_api_token, log_audit, create_api_token, revoke_api_token_by_value}

pub data Request : Type 0 where
  ensure : Fresh → Option Text → Text → Request
  create : Fresh → Text → Text → Text → Request
  log_in : Attempt → Request
  set_password : Fresh → Text → Text → Request
  delete : ℕ → Text → Request
  set_role : ℕ → Text → Text → Request
  enable : ℕ → Text → Request
  disable : ℕ → Text → Request
  change : ℕ → Text → Text → Text → Option Bool → Request
  grant : Fresh → Text → Text → Text → Request
  revoke_id : Text → Request
  revoke_value : Text → Request
  audit : Fresh → Text → Text → Text → Text → Text → Request

module _ (crypto : Crypto) where
  unfoldable pub after_request : Request → Tables → Tables
  unfolding ensure_default_admin create_user authenticate update_password delete_user
      update_user_role enable_user disable_user update_user create_api_token
      revoke_api_token_by_value log_audit
  after_request (ensure fresh password random) tables =
      (ensure_default_admin crypto fresh password random tables).0
  after_request (create fresh username password role) tables =
      (create_user crypto fresh username password role tables).0
  after_request (log_in attempt) tables = (authenticate crypto attempt tables).0
  after_request (set_password fresh id password) tables =
      (update_password crypto fresh id password tables).0
  after_request (delete now id) tables = (delete_user now id tables).0
  after_request (set_role now id role) tables = (update_user_role now id role tables).0
  after_request (enable now id) tables = (enable_user now id tables).0
  after_request (disable now id) tables = (disable_user now id tables).0
  after_request (change now id username role enabled) tables =
      (update_user now id username role enabled tables).0
  after_request (grant fresh random user_id name) tables =
      (create_api_token crypto fresh random user_id name tables).0
  after_request (revoke_id id) tables = (revoke_api_token id tables).0
  after_request (revoke_value token) tables = (revoke_api_token_by_value crypto token tables).0
  after_request (audit fresh user_id action resource details ip) tables =
      (log_audit fresh user_id action resource details ip tables).0

  unfoldable pub after_requests : List Request → Tables → Tables
  unfolding after_request
  after_requests [] tables = tables
  after_requests (r ∷ rs) tables = after_requests rs (after_request r tables)
