-- ===== src/Auth/Revoked.antt =====
-- That a revoked token of internal/auth/auth.go stays revoked.
use quetzalog.Base.{
  any_row, ℕ, Bool, true, false, ◌&&◌, ◌||◌, List, [], ◌∷◌, ◌≡◌, refl, ◌∙◌, Text, equal, equal_iff,
  arith, Option, codes, ◌++◌,
}
use quetzalog.Auth.Tables.{
  Token, Tables, Reply, answered, refused, token_revoked, get_token_by_hash, revoke_where,
}
use quetzalog.Auth.Users.{
  Crypto, Fresh, create_user, insert_user, ensure_default_admin, update_password, disable_user,
  delete_user, update_user_role, enable_user, update_user,
}
use quetzalog.Auth.Login.{Attempt, authenticate}
use quetzalog.Auth.Tokens.{
  checked_token, revoke, log_audit, create_api_token, revoke_api_token_by_value, validate_api_token,
}
use quetzalog.Auth.Requests.{
  Request, ensure, create, log_in, set_password, delete, set_role, enable, disable, change, grant,
  revoke_id, revoke_value, audit, after_request, after_requests,
}

-- There is a token with the hash, and it is disabled, as are all with it.
unfoldable IsRevoked : Text → List Token → Type 0
IsRevoked hash tokens =
    (any_row (λ t. equal t.token_hash hash) tokens ≡ true)
    × (any_row (λ t. equal t.token_hash hash && t.enabled) tokens ≡ false)

module _ (hash : Text) (test : Token → Bool) where
  revoke_where-has :
      (ts : List Token)
      → any_row (λ t. equal t.token_hash hash) (revoke_where test ts)
        ≡ any_row (λ t. equal t.token_hash hash) ts
  unfolding any_row revoke_where
  revoke_where-has [] = refl
  revoke_where-has (t ∷ ts) = ground (arith, revoke_where-has ts)

  revoke_where-enabled :
      (ts : List Token)
      → any_row (λ t. equal t.token_hash hash && t.enabled) ts ≡ false
      → any_row (λ t. equal t.token_hash hash && t.enabled) (revoke_where test ts) ≡ false
  unfolding any_row revoke_where
  revoke_where-enabled [] h = refl
  revoke_where-enabled (t ∷ ts) h = ground (arith, revoke_where-enabled ts)

revoke_where-hash :
    (hash : Text) (ts : List Token)
    → any_row
        (λ t. equal t.token_hash hash && t.enabled)
        (revoke_where (λ t. equal t.token_hash hash) ts)
      ≡ false
unfolding any_row revoke_where
revoke_where-hash hash [] = refl
revoke_where-hash hash (t ∷ ts) = ground (arith, revoke_where-hash hash ts)

-- What the calls on accounts leave alone.
module _ (crypto : Crypto) (tables : Tables) where
  abbrev LeavesTokens : {A : Type 0} → Tables × Reply A → Type 0
  LeavesTokens r = r.0.tokens ≡ tables.tokens

  create_user-tokens :
      (fresh : Fresh) (username password role : Text)
      → LeavesTokens (create_user crypto fresh username password role tables)
  unfolding create_user insert_user
  create_user-tokens fresh username password role = ground arith

  ensure_default_admin-tokens :
      (fresh : Fresh) (password : Option Text) (random : Text)
      → LeavesTokens (ensure_default_admin crypto fresh password random tables)
  unfolding ensure_default_admin insert_user
  ensure_default_admin-tokens fresh password random = ground arith

  authenticate-tokens : (attempt : Attempt) → LeavesTokens (authenticate crypto attempt tables)
  unfolding authenticate
  authenticate-tokens attempt = ground arith

  update_password-tokens :
      (fresh : Fresh) (id password : Text)
      → LeavesTokens (update_password crypto fresh id password tables)
  unfolding update_password
  update_password-tokens fresh id password = ground arith

  delete_user-tokens : (now : ℕ) (id : Text) → LeavesTokens (delete_user now id tables)
  unfolding delete_user
  delete_user-tokens now id = ground arith

  update_user_role-tokens :
      (now : ℕ) (id role : Text) → LeavesTokens (update_user_role now id role tables)
  unfolding update_user_role
  update_user_role-tokens now id role = ground arith

  update_user-tokens :
      (now : ℕ) (id username role : Text) (enabled : Option Bool)
      → LeavesTokens (update_user now id username role enabled tables)
  unfolding update_user
  update_user-tokens now id username role enabled = ground arith

  log_audit-tokens :
      (fresh : Fresh) (user_id action resource details ip : Text)
      → LeavesTokens (log_audit fresh user_id action resource details ip tables)
  unfolding log_audit
  log_audit-tokens fresh user_id action resource details ip = ground arith

any_row-or :
    (hash id new : Text) (ts : List Token)
    → any_row (λ t. equal t.id id || equal t.token_hash new) ts ≡ false
    → any_row (λ t. equal t.token_hash hash) ts ≡ true
    → equal new hash ≡ false
unfolding any_row
any_row-or hash id new [] h k = cc
any_row-or hash id new (t ∷ ts) h k = ground (
  arith,
  equal_iff new hash,
  equal_iff t.token_hash hash,
  equal_iff t.token_hash new,
  any_row-or hash id new ts,
)

module _ (crypto : Crypto) (hash : Text) where
  create_api_token-IsRevoked :
      (fresh : Fresh) (random user_id name : Text) (tables : Tables)
      → IsRevoked hash tables.tokens
      → IsRevoked hash (create_api_token crypto fresh random user_id name tables).0.tokens
  unfolding create_api_token IsRevoked any_row
  create_api_token-IsRevoked fresh random user_id name tables h =
      ground (
        arith,
        any_row-or hash fresh.id (crypto.hash_token (codes "siem_" ++ random)) tables.tokens,
      )

  revoke-IsRevoked :
      (test : Token → Bool) (tables : Tables)
      → IsRevoked hash tables.tokens
      → IsRevoked hash (revoke test tables).0.tokens
  unfolding revoke IsRevoked
  revoke-IsRevoked test tables h = (
    revoke_where-has hash test tables.tokens ∙ h.0,
    revoke_where-enabled hash test tables.tokens h.1,
  )

  kept-IsRevoked : (ts us : List Token) → us ≡ ts → IsRevoked hash ts → IsRevoked hash us
  kept-IsRevoked ts us e h = rw e h

  after_request-IsRevoked :
      (r : Request) (tables : Tables)
      → IsRevoked hash tables.tokens
      → IsRevoked hash (after_request crypto r tables).tokens
  unfolding after_request revoke_api_token_by_value disable_user enable_user
  after_request-IsRevoked (ensure fresh password random) tables h =
      kept-IsRevoked _ _ (ensure_default_admin-tokens crypto tables fresh password random) h
  after_request-IsRevoked (create fresh username password role) tables h =
      kept-IsRevoked _ _ (create_user-tokens crypto tables fresh username password role) h
  after_request-IsRevoked (log_in attempt) tables h =
      kept-IsRevoked _ _ (authenticate-tokens crypto tables attempt) h
  after_request-IsRevoked (set_password fresh id password) tables h =
      kept-IsRevoked _ _ (update_password-tokens crypto tables fresh id password) h
  after_request-IsRevoked (delete now id) tables h =
      kept-IsRevoked _ _ (delete_user-tokens crypto tables now id) h
  after_request-IsRevoked (set_role now id role) tables h =
      kept-IsRevoked _ _ (update_user_role-tokens crypto tables now id role) h
  after_request-IsRevoked (enable now id) tables h = h
  after_request-IsRevoked (disable now id) tables h = h
  after_request-IsRevoked (change now id username role enabled) tables h =
      kept-IsRevoked _ _ (update_user-tokens crypto tables now id username role enabled) h
  after_request-IsRevoked (grant fresh random user_id name) tables h =
      create_api_token-IsRevoked fresh random user_id name tables h
  after_request-IsRevoked (revoke_id id) tables h = revoke-IsRevoked (λ t. equal t.id id) tables h
  after_request-IsRevoked (revoke_value token) tables h =
      revoke-IsRevoked (λ t. equal t.token_hash (crypto.hash_token token)) tables h
  after_request-IsRevoked (audit fresh user_id action resource details ip) tables h =
      kept-IsRevoked _ _ (log_audit-tokens crypto tables fresh user_id action resource details ip) h

  after_requests-IsRevoked :
      (rs : List Request) (tables : Tables)
      → IsRevoked hash tables.tokens
      → IsRevoked hash (after_requests crypto rs tables).tokens
  unfolding after_requests
  after_requests-IsRevoked [] tables h = h
  after_requests-IsRevoked (r ∷ rs) tables h =
      after_requests-IsRevoked rs (after_request crypto r tables)
        (after_request-IsRevoked r tables h)

get_token-disabled :
    (hash : Text) (ts : List Token)
    → IsRevoked hash ts
    → checked_token (get_token_by_hash hash ts) ≡ refused token_revoked
unfolding IsRevoked any_row get_token_by_hash
get_token-disabled hash [] h = cc
get_token-disabled hash (t ∷ ts) h = ground (arith, get_token-disabled hash ts)

module _ (crypto : Crypto) (token : Text) (tables : Tables) where
  revoke_api_token_by_value-IsRevoked :
      (revoke_api_token_by_value crypto token tables).1 ≡ answered tt
      → IsRevoked (crypto.hash_token token) (revoke_api_token_by_value crypto token tables).0.tokens
  unfolding revoke_api_token_by_value revoke IsRevoked
  revoke_api_token_by_value-IsRevoked h = (
    revoke_where-has (crypto.hash_token token) (λ t. equal t.token_hash (crypto.hash_token token))
          tables.tokens
        ∙ ground arith,
    revoke_where-hash (crypto.hash_token token) tables.tokens,
  )

  -- A token that `RevokeAPITokenByValue` has revoked is refused as revoked after any further calls,
  -- also ones that grant tokens.
  pub validate-after_requests :
      (rs : List Request)
      → (revoke_api_token_by_value crypto token tables).1 ≡ answered tt
      → validate_api_token crypto token
          (after_requests crypto rs (revoke_api_token_by_value crypto token tables).0)
        ≡ refused token_revoked
  unfolding validate_api_token
  validate-after_requests rs h =
      get_token-disabled (crypto.hash_token token)
        (after_requests crypto rs (revoke_api_token_by_value crypto token tables).0).tokens
        (after_requests-IsRevoked crypto (crypto.hash_token token) rs
          (revoke_api_token_by_value crypto token tables).0 (revoke_api_token_by_value-IsRevoked h))
