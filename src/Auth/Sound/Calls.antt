-- ===== src/Auth/Sound/Calls.antt =====
-- That all calls of internal/auth/auth.go keep the invariant of its tables.
use quetzalog.Base.{
  any_row, IsKey, any_row-or, Bool, true, ◌||◌, not, List, [], ◌∷◌, ◌++◌, ◌≡◌, refl, Text, codes,
  equal, arith, if_rule,
}
use quetzalog.Auth.Tables.{Token, Tables, refused, failed}
use quetzalog.Auth.Rows.{revoke_where-IsKey, All-revoke_where}
use quetzalog.Auth.Users.{Crypto, Fresh}
use quetzalog.Auth.Tokens.{revoke, log_audit, create_api_token, revoke_api_token_by_value}
use quetzalog.Auth.Requests.{
  Request, ensure, create, log_in, set_password, delete, set_role, enable, disable, change, grant,
  revoke_id, revoke_value, audit, after_request, after_requests,
}
use quetzalog.Auth.Sound.{IsSound, LeavesSound}
use quetzalog.Auth.Sound.Accounts.{
  authenticate-IsSound, create_user-IsSound, delete_user-IsSound, disable_user-IsSound,
  enable_user-IsSound, ensure_default_admin-IsSound, update_password-IsSound, update_user-IsSound,
  update_user_role-IsSound,
}

module _ (crypto : Crypto) (tables : Tables) (s : IsSound tables) where
  create_api_token-IsSound :
      (fresh : Fresh) (random user_id name : Text)
      → LeavesSound (create_api_token crypto fresh random user_id name tables)
  unfolding create_api_token LeavesSound IsKey
  create_api_token-IsSound fresh random user_id name =
      let hash = crypto.hash_token (codes "siem_" ++ random) in
      if_rule LeavesSound
        (any_row (λ t. equal t.id fresh.id || equal t.token_hash hash) tables.tokens
          || not (any_row (λ u. equal u.id user_id) tables.users))
        (tables, refused failed) _ (λ _. s)
        (λ h.
          let free =
            any_row-or (λ t. equal t.id fresh.id) (λ t. equal t.token_hash hash) tables.tokens
              (ground arith) in
          record {
            user_ids = s.user_ids;
            usernames = s.usernames;
            accounts = s.accounts;
            token_ids = (free.0, s.token_ids);
            token_hashes = (free.1, s.token_hashes);
            owners = (ground arith, s.owners);
          })

  revoke-IsSound : (test : Token → Bool) → LeavesSound (revoke test tables)
  unfolding revoke LeavesSound
  revoke-IsSound test = record {
    user_ids = s.user_ids;
    usernames = s.usernames;
    accounts = s.accounts;
    token_ids = revoke_where-IsKey (λ t. t.id) test (λ t. refl) tables.tokens s.token_ids;
    token_hashes =
        revoke_where-IsKey (λ t. t.token_hash) test (λ t. refl) tables.tokens s.token_hashes;
    owners =
        All-revoke_where (λ t. any_row (λ u. equal u.id t.user_id) tables.users ≡ true) test
          (λ t h. h) tables.tokens s.owners;
  }

  log_audit-IsSound :
      (fresh : Fresh) (user_id action resource details ip : Text)
      → LeavesSound (log_audit fresh user_id action resource details ip tables)
  unfolding log_audit LeavesSound
  log_audit-IsSound fresh user_id action resource details ip =
      if_rule LeavesSound
        (any_row (λ row. equal row.id fresh.id) tables.audit
          || not (any_row (λ u. equal u.id user_id) tables.users))
        (tables, refused failed) _ (λ _. s)
        (λ _. record {
          user_ids = s.user_ids;
          usernames = s.usernames;
          accounts = s.accounts;
          token_ids = s.token_ids;
          token_hashes = s.token_hashes;
          owners = s.owners;
        })

module _ (crypto : Crypto) where
  after_request-IsSound :
      (r : Request) (tables : Tables) → IsSound tables → IsSound (after_request crypto r tables)
  unfolding after_request revoke_api_token_by_value LeavesSound
  after_request-IsSound (ensure fresh password random) tables s =
      ensure_default_admin-IsSound crypto tables s fresh password random
  after_request-IsSound (create fresh username password role) tables s =
      create_user-IsSound crypto tables s fresh username password role
  after_request-IsSound (log_in attempt) tables s = authenticate-IsSound crypto tables s attempt
  after_request-IsSound (set_password fresh id password) tables s =
      update_password-IsSound crypto tables s fresh id password
  after_request-IsSound (delete now id) tables s = delete_user-IsSound crypto tables s now id
  after_request-IsSound (set_role now id role) tables s =
      update_user_role-IsSound crypto tables s now id role
  after_request-IsSound (enable now id) tables s = enable_user-IsSound crypto tables s now id
  after_request-IsSound (disable now id) tables s = disable_user-IsSound crypto tables s now id
  after_request-IsSound (change now id username role enabled) tables s =
      update_user-IsSound crypto tables s now id username role enabled
  after_request-IsSound (grant fresh random user_id name) tables s =
      create_api_token-IsSound crypto tables s fresh random user_id name
  after_request-IsSound (revoke_id id) tables s =
      revoke-IsSound crypto tables s (λ t. equal t.id id)
  after_request-IsSound (revoke_value token) tables s =
      revoke-IsSound crypto tables s (λ t. equal t.token_hash (crypto.hash_token token))
  after_request-IsSound (audit fresh user_id action resource details ip) tables s =
      log_audit-IsSound crypto tables s fresh user_id action resource details ip

  -- From tables in which identifiers, usernames and hashes of tokens are keys, every account has one
  -- of the roles and a lock exactly when it counts five failures or more, and every token is of a
  -- user, any calls, failed ones among them, lead to such tables.
  pub after_requests-IsSound :
      (rs : List Request) (tables : Tables)
      → IsSound tables
      → IsSound (after_requests crypto rs tables)
  unfolding after_requests
  after_requests-IsSound [] tables s = s
  after_requests-IsSound (r ∷ rs) tables s =
      after_requests-IsSound rs (after_request crypto r tables) (after_request-IsSound r tables s)
