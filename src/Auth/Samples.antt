-- ===== src/Auth/Samples.antt =====
-- Runs of internal/auth/auth.go. A password's hash is here the password behind a dot, and a token's
-- the token.
use quetzalog.Base.{
  ℕ, ◌+◌, ◌≤◌, ◌≢◌, true, false, List, [], ◌∷◌, ◌≡◌, refl, Text, codes, equal, one_of, arith, none,
  some, any_row, IsKey,
}
use quetzalog.Auth.Tables.{
  User, Token, Tables, answered, refused, token_revoked, get_user, get_user_by_username,
  update_users, is_role,
}
use quetzalog.Auth.Users.{Crypto, Fresh, disable_user}
use quetzalog.Auth.Login.{Attempt, authenticate, is_locked, logged_in, increment_failed_logins}
use quetzalog.Auth.Tokens.{
  create_api_token, validate_api_token, revoke, revoke_api_token_by_value, auth_middleware,
  split_space,
}
use quetzalog.Auth.Requests.{Request, create, log_in, grant, after_requests}
use quetzalog.Auth.Revoked.{validate-after_requests}
use quetzalog.Auth.Lockout.{IsGuess, comparisons, guesses_left, comparisons_bounds}
use quetzalog.Auth.Sound.{IsAccount, IsSound}
use quetzalog.Auth.Sound.Calls.{after_requests-IsSound}
use quetzalog.Auth.Shut.{reopened, reopens}
use quetzalog.Auth.Shut.Calls.{disable_user-shuts_out}
use quetzalog.Auth.Grants.{create_api_token-auth_middleware, authenticate-answered}

abbrev plain : Crypto
plain = record {
  hash_password = λ salt password. some (b'.' ∷ password);
  check_password = λ hash password. equal hash (b'.' ∷ password);
  hash_token = λ token. token;
}

abbrev fresh : Text → Fresh
fresh id = record { id = id; salt = []; now = 1 }

abbrev ann : User
ann = record {
  id = codes "u1";
  username = codes "ann";
  password_hash = codes ".pass";
  role = codes "analyst";
  enabled = true;
  last_login_at = none;
  failed_login = 3;
  locked_until = none;
  created_at = 0;
  updated_at = 0;
}

abbrev old_token : Token
old_token = record {
  id = codes "t0";
  token_hash = codes "siem_old";
  user_id = codes "u1";
  name = codes "cli";
  enabled = true;
  created_at = 0;
}

abbrev office : Tables
office = record { users = ann ∷ []; tokens = old_token ∷ []; audit = [] }

office-IsSound : IsSound office
unfolding IsKey any_row IsAccount is_role one_of equal
office-IsSound = record {
  user_ids = (refl, tt);
  usernames = (refl, tt);
  accounts = ((refl, refl), tt);
  token_ids = (refl, tt);
  token_hashes = (refl, tt);
  owners = (refl, tt);
}

abbrev try : Text → ℕ → Attempt
try password now = record {
  username = codes "ann";
  password = password;
  now = now;
  later = now + 1;
}

abbrev requests : List Request
requests =
    create (fresh (codes "u2")) (codes "bob") (codes "word") []
    ∷ log_in (try (codes "guess") 5)
    ∷ grant (fresh (codes "t2")) (codes "old") (codes "u1") (codes "again")
    ∷ grant (fresh (codes "t2")) (codes "new") (codes "u1") (codes "other")
    ∷ []

after_requests-IsSound_example : IsSound (after_requests plain requests office)
after_requests-IsSound_example = after_requests-IsSound plain requests office office-IsSound

old_token-is_known : (revoke_api_token_by_value plain (codes "siem_old") office).1 ≡ answered tt
unfolding revoke_api_token_by_value revoke any_row equal
old_token-is_known = refl

validate-after_requests_example :
    validate_api_token plain
      (codes "siem_old")
      (after_requests plain requests (revoke_api_token_by_value plain (codes "siem_old") office).0)
    ≡ refused token_revoked
validate-after_requests_example =
    validate-after_requests plain (codes "siem_old") office requests old_token-is_known

-- Two failures are left to the lock; the third guess is stopped by it.
abbrev guesses : List Attempt
guesses = try (codes "a") 10 ∷ try (codes "b") 20 ∷ try (codes "c") 30 ∷ []

guesses_made : comparisons plain guesses office ≡ 2
unfolding comparisons authenticate get_user_by_username get_user increment_failed_logins
    update_users equal
guesses_made = refl

try-IsGuess :
    (password : Text) (now : ℕ)
    → equal (codes ".pass") (b'.' ∷ password) ≡ false
    → 10 ≤ now
    → now ≤ 100
    → IsGuess plain (codes "ann") (codes ".pass") 10 (try password now)
try-IsGuess password now wrong h k = record {
  named = refl;
  wrong = wrong;
  since = h;
  in_order = omega arith;
  until = omega arith;
}

found_ann : get_user_by_username (codes "ann") office.users ≡ some ann
unfolding get_user_by_username equal
found_ann = refl

found_u1 : get_user (codes "u1") office.users ≡ some ann
unfolding get_user equal
found_u1 = refl

comparisons_bounds_example : comparisons plain guesses office ≤ guesses_left 3
unfolding equal
comparisons_bounds_example = comparisons_bounds plain ann 10 guesses office found_ann found_u1 (
  try-IsGuess (codes "a") 10 refl (omega arith) (omega arith),
  (
    try-IsGuess (codes "b") 20 refl (omega arith) (omega arith),
    (try-IsGuess (codes "c") 30 refl (omega arith) (omega arith), tt),
  ),
)

u1-is_known : any_row (λ (u : User). equal u.id (codes "u1")) office.users ≡ true
unfolding any_row equal
u1-is_known = refl

requests-reopen_none : reopened (codes "u1") requests ≡ false
unfolding reopened reopens equal
requests-reopen_none = refl

disable_user-shuts_out_example :
    ((attempt : Attempt) (u : User)
      → (authenticate plain attempt
          (after_requests plain requests (disable_user 7 (codes "u1") office).0)).1
        ≡ answered u
      → u.id ≢ codes "u1")
    × ((header token : Text) (t : Token)
        → split_space header ≡ some (codes "Bearer", token)
        → validate_api_token plain token
            (after_requests plain requests (disable_user 7 (codes "u1") office).0)
          ≡ answered t
        → t.user_id ≡ codes "u1"
        → auth_middleware plain header
            (after_requests plain requests (disable_user 7 (codes "u1") office).0)
          ≡ false)
disable_user-shuts_out_example =
    disable_user-shuts_out plain (codes "u1") 7 office requests u1-is_known requests-reopen_none

new_token-is_granted :
    (create_api_token plain (fresh (codes "t1")) (codes "new") (codes "u1") (codes "cli") office).1
    ≡ answered (codes "siem_new")
unfolding create_api_token any_row equal
new_token-is_granted = refl

create_api_token-auth_middleware_example :
    ((t : Token) × (validate_api_token plain
          (codes "siem_new")
          (create_api_token plain
            (fresh (codes "t1"))
            (codes "new")
            (codes "u1")
            (codes "cli")
            office).0
        ≡ answered t)
      × (t.user_id ≡ codes "u1"))
    × (auth_middleware plain
          (codes "Bearer siem_new")
          (create_api_token plain
            (fresh (codes "t1"))
            (codes "new")
            (codes "u1")
            (codes "cli")
            office).0
        ≡ true)
create_api_token-auth_middleware_example =
    create_api_token-auth_middleware plain (fresh (codes "t1")) (codes "new") (codes "u1")
      (codes "cli") (codes "siem_new") office ann found_u1 new_token-is_granted

abbrev ann_in : User
ann_in = record ann { last_login_at = some 51 }

ann-logs_in : (authenticate plain (try (codes "pass") 50) office).1 ≡ answered ann_in
unfolding authenticate get_user_by_username equal
ann-logs_in = refl

authenticate-answered_example :
    (row : User) × (get_user_by_username (codes "ann") office.users ≡ some row)
    × (ann_in ≡ record row { last_login_at = some 51 })
    × (row.enabled ≡ true)
    × (is_locked 50 row.locked_until ≡ false)
    × (equal row.password_hash (codes ".pass") ≡ true)
    × (get_user_by_username
          (codes "ann")
          (authenticate plain (try (codes "pass") 50) office).0.users
        ≡ some (logged_in 51 row))
authenticate-answered_example =
    authenticate-answered plain (try (codes "pass") 50) office ann_in ann-logs_in
