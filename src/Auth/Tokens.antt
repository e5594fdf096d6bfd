-- ===== src/Auth/Tokens.antt =====
-- The bearer tokens of internal/auth/auth.go, the middleware that asks for one, and the audit log.
use quetzalog.Base.{
  any_row, ℕ, Bool, true, false, ◌||◌, not, List, [], ◌∷◌, ◌++◌, Text, codes, equal, if◌then◌else◌,
  Option, none, some, ◌==◌,
}
use quetzalog.Auth.Tables.{
  User, Token, Tables, token_not_found, token_revoked, failed, Reply, answered, refused, get_user,
  get_token_by_hash, revoke_where,
}
use quetzalog.Auth.Users.{Crypto, Fresh}

abbrev pub with_tokens : List Token → Tables → Tables
with_tokens tokens tables = record tables { tokens = tokens }

abbrev pub checked_token : Option Token → Reply Token
checked_token none = refused token_not_found
checked_token (some token) = if token.enabled then answered token else refused token_revoked

-- `UPDATE api_tokens SET enabled = 0`, and the test of `RowsAffected`.
unfoldable pub revoke : (Token → Bool) → Tables → Tables × Reply (Unit {0})
unfolding revoke_where any_row
revoke test tables = (
  with_tokens (revoke_where test tables.tokens) tables,
  if any_row test tables.tokens then answered tt else refused token_not_found,
)

-- `RevokeAPIToken`.
abbrev pub revoke_api_token : Text → Tables → Tables × Reply (Unit {0})
revoke_api_token id = revoke (λ t. equal t.id id)

-- `LogAudit`, under the primary key and the reference to a user.
unfoldable pub log_audit :
    Fresh → Text → Text → Text → Text → Text → Tables → Tables × Reply (Unit {0})
unfolding any_row
log_audit fresh user_id action resource details ip tables =
    if any_row (λ row. equal row.id fresh.id) tables.audit
      || not (any_row (λ u. equal u.id user_id) tables.users)
    then (tables, refused failed)
    else (
      record tables {
        audit =
            record {
              id = fresh.id;
              user_id = user_id;
              action = action;
              resource = resource;
              details = details;
              ip = ip;
              created_at = fresh.now;
            }
            ∷ tables.audit;
      },
      answered tt,
    )

abbrev pub behind : ℕ → Option (Text × Text) → Option (Text × Text)
behind c none = none
behind c (some (a, b)) = some (c ∷ a, b)

-- `strings.SplitN(header, " ", 2)`: what stands before and behind the first space.
unfoldable pub split_space : Text → Option (Text × Text)
split_space [] = none
split_space (c ∷ s) =
    let more = behind c (split_space s) in if c == b' ' then some ([], s) else more

module _ (crypto : Crypto) where
  -- `CreateAPIToken`, on the digits of 32 random bytes.
  unfoldable pub create_api_token : Fresh → Text → Text → Text → Tables → Tables × Reply Text
  unfolding any_row
  create_api_token fresh random user_id name tables =
      let secret = codes "siem_" ++ random in
      let hash = crypto.hash_token secret in
      if any_row (λ t. equal t.id fresh.id || equal t.token_hash hash) tables.tokens
        || not (any_row (λ u. equal u.id user_id) tables.users)
      then (tables, refused failed)
      else (
        with_tokens
            (record {
              id = fresh.id;
              token_hash = hash;
              user_id = user_id;
              name = name;
              enabled = true;
              created_at = fresh.now;
            }
              ∷ tables.tokens)
            tables,
        answered secret,
      )

  -- `ValidateAPIToken`.
  unfoldable pub validate_api_token : Text → Tables → Reply Token
  unfolding get_token_by_hash
  validate_api_token token tables =
      checked_token (get_token_by_hash (crypto.hash_token token) tables.tokens)

  -- `RevokeAPITokenByValue`.
  unfoldable pub revoke_api_token_by_value : Text → Tables → Tables × Reply (Unit {0})
  unfolding revoke
  revoke_api_token_by_value token = revoke (λ t. equal t.token_hash (crypto.hash_token token))

  abbrev pub admit_user : Option User → Bool
  admit_user none = false
  admit_user (some user) = user.enabled

  abbrev pub admit_token : Reply Token → Tables → Bool
  admit_token (refused e) tables = false
  admit_token (answered token) tables = admit_user (get_user token.user_id tables.users)

  abbrev pub admit_parts : Option (Text × Text) → Tables → Bool
  admit_parts none tables = false
  admit_parts (some (scheme, token)) tables =
      if equal scheme (codes "Bearer")
      then admit_token (validate_api_token token tables) tables
      else false

  -- `AuthMiddleware`: whether the next handler is called. The header is empty where there is none.
  unfoldable pub auth_middleware : Text → Tables → Bool
  unfolding split_space validate_api_token get_user
  auth_middleware header tables =
      if equal header [] then false else admit_parts (split_space header) tables
