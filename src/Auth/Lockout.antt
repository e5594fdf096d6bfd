-- ===== src/Auth/Lockout.antt =====
-- The guesses of a password that `Authenticate` of internal/auth/auth.go lets through.
use quetzalog.Base.{
  All, ℕ, ◌+◌, ◌-◌, ◌*◌, ◌≤◌, ◌<◌, Bool, true, false, ◌&&◌, not, List, [], ◌∷◌, ◌≡◌, refl, Text,
  equal_iff, if◌then◌else◌, Bool-cases, inl, inr, arith, some, leb,
}
use quetzalog.Auth.Tables.{
  User, Tables, Reply, answered, refused, invalid_credentials, get_user, get_user_by_username,
  update_users,
}
use quetzalog.Auth.Users.{Crypto}
use quetzalog.Auth.Login.{
  Attempt, authenticate, is_locked, count_failure, increment_failed_logins, lock_time, max_failures,
}

-- Rows that keep their names and identifiers are found again.
module _ (f : User → User)
    (keeps : (u : User) → ((f u).id ≡ u.id) × ((f u).username ≡ u.username)) where
  pub get_user-update_users :
      (id : Text) (u : User) (users : List User)
      → get_user id users ≡ some u
      → get_user id (update_users id f users) ≡ some (f u)
  unfolding get_user update_users
  get_user-update_users id u [] h = cc
  get_user-update_users id u (v ∷ users) h =
      ground (arith, keeps v, get_user-update_users id u users)

  pub get_user_by_username-update_users :
      (name : Text) (u : User) (users : List User)
      → get_user_by_username name users ≡ some u
      → get_user_by_username name (update_users u.id f users) ≡ some (f u)
  unfolding get_user_by_username update_users
  get_user_by_username-update_users name u [] h = cc
  get_user_by_username-update_users name u (v ∷ users) h =
      ground (arith, equal_iff v.id u.id, keeps v, get_user_by_username-update_users name u users)

pub get_user-id :
    (id : Text) (u : User) (users : List User) → get_user id users ≡ some u → u.id ≡ id
unfolding get_user
get_user-id id u [] h = cc
get_user-id id u (v ∷ users) h = ground (arith, equal_iff v.id id, get_user-id id u users)

count_failure_keys :
    (now n : ℕ) (u : User)
    → ((count_failure now n u).id ≡ u.id) × ((count_failure now n u).username ≡ u.username)
count_failure_keys now n u = ground arith

-- Whether an answer comes from the comparison of the password: it is a user, or says that the
-- credentials are wrong.
abbrev pub tells : Reply User → Bool
tells (answered user) = true
tells (refused invalid_credentials) = true
tells (refused _) = false

-- Whether `Authenticate` answers an attempt on an account there is from the comparison.
unfoldable pub is_compared : Crypto → Attempt → Tables → Bool
unfolding authenticate
is_compared crypto attempt tables = tells (authenticate crypto attempt tables).1

-- How many attempts of a run it does so for.
unfoldable pub comparisons : Crypto → List Attempt → Tables → ℕ
unfolding is_compared
comparisons crypto [] tables = 0
comparisons crypto (a ∷ more) tables =
    (if is_compared crypto a tables then 1 else 0)
    + comparisons crypto more (authenticate crypto a tables).0

-- How many wrong passwords an account is to let through in a lock's time, by its failures so far.
abbrev pub guesses_left : ℕ → ℕ
guesses_left n = if leb 5 (n + 1) then 1 else 5 - n

-- Wrong passwords for one account within a lock's time.
pub record IsGuess (crypto : Crypto) (name hash : Text) (start : ℕ) (a : Attempt) : Type 0 where
  pub named : a.username ≡ name
  pub wrong : crypto.check_password hash a.password ≡ false
  pub since : start ≤ a.now
  pub in_order : a.now ≤ a.later
  pub until : a.later < start + 15 * 60 * 1000000000

-- The account's row, found by its name and by its identifier.
record IsRow (u : User) (name hash : Text) (tables : Tables) : Type 0 where
  by_name : get_user_by_username name tables.users ≡ some u
  by_id : get_user u.id tables.users ≡ some u
  hashed : u.password_hash ≡ hash

module _ (crypto : Crypto) (name hash : Text) (start : ℕ) where
  refuse_lem :
      (a : Attempt) (u : User) (tables : Tables)
      → IsGuess crypto name hash start a
      → IsRow u name hash tables
      → (u.enabled && not (is_locked a.now u.locked_until)) ≡ false
      → (is_compared crypto a tables ≡ false) × ((authenticate crypto a tables).0 ≡ tables)
  unfolding is_compared authenticate
  refuse_lem a u tables g r h = ground (arith, r.by_name, g.named)

  failure_lem :
      (a : Attempt) (u : User) (tables : Tables)
      → IsGuess crypto name hash start a
      → IsRow u name hash tables
      → (u.enabled && not (is_locked a.now u.locked_until)) ≡ true
      → (is_compared crypto a tables ≡ true)
        × ((authenticate crypto a tables).0 ≡ increment_failed_logins a.later u.id tables)
  unfolding is_compared authenticate
  failure_lem a u tables g r h = ground (arith, r.by_name, r.hashed, g.named, g.wrong)

  failure-IsRow :
      (now : ℕ) (u : User) (tables : Tables)
      → IsRow u name hash tables
      → IsRow
          (count_failure now u.failed_login u)
          name
          hash
          (increment_failed_logins now u.id tables)
  unfolding increment_failed_logins
  failure-IsRow now u tables r =
      let f = count_failure now u.failed_login in
      let named =
        get_user_by_username-update_users f (count_failure_keys now u.failed_login) name u
          tables.users r.by_name in
      let found =
        get_user-update_users f (count_failure_keys now u.failed_login) u.id u tables.users
          r.by_id in
      ground (arith, r.by_id, r.hashed, named, found, count_failure_keys now u.failed_login u)

  -- A lock that lasts beyond the attempts lets none of them through.
  locked_lem :
      (gs : List Attempt) (u : User) (until : ℕ) (tables : Tables)
      → All (IsGuess crypto name hash start) gs
      → IsRow u name hash tables
      → u.locked_until ≡ some until
      → start + lock_time ≤ until
      → comparisons crypto gs tables ≡ 0
  unfolding comparisons
  locked_lem [] u until tables g r l h = refl
  locked_lem (a ∷ gs) u until tables (g, gg) r l h =
      let (shut, same) = refuse_lem a u tables g r (ground (arith, g.in_order, g.until)) in
      rw (shut, same) (omega (arith, locked_lem gs u until tables gg r l h))

  guesses_lem :
      (gs : List Attempt) (u : User) (tables : Tables)
      → All (IsGuess crypto name hash start) gs
      → IsRow u name hash tables
      → comparisons crypto gs tables ≤ guesses_left u.failed_login
  unfolding comparisons
  guesses_lem [] u tables g r = ground arith
  guesses_lem (a ∷ gs) u tables (g, gg) r =
      elim (Bool-cases (u.enabled && not (is_locked a.now u.locked_until))) [
        | inl open_ ↦
            let (is_open, next) = failure_lem a u tables g r open_ in
            let n = u.failed_login in
            let row = failure-IsRow a.later u tables r in
            let left =
              guesses_lem gs (count_failure a.later n u)
                (increment_failed_logins a.later u.id tables) gg row in
            rw (is_open, next)
              (elim (Bool-cases (leb max_failures (n + 1))) [
                | inl many ↦
                    let none_left =
                      locked_lem gs (count_failure a.later n u) (a.later + lock_time)
                        (increment_failed_logins a.later u.id tables) gg row (ground arith)
                        (ground (arith, g.since, g.in_order)) in
                    ground arith
                | inr few ↦ ground arith
              ])
        | inr shut ↦
            let (is_shut, same) = refuse_lem a u tables g r shut in
            rw (is_shut, same) (ground (arith, guesses_lem gs u tables gg r))
      ]

-- Of the wrong passwords tried for an account within the 15 minutes of a lock, `Authenticate`
-- answers at most as many as are missing to five failures from the comparison of the password, and
-- one where there are four or more, whatever the account's lock; it refuses the others as it does
-- for a disabled account. The account's row is the first with its name and its identifier.
pub comparisons_bounds :
    (crypto : Crypto) (u : User) (start : ℕ) (gs : List Attempt) (tables : Tables)
    → get_user_by_username u.username tables.users ≡ some u
    → get_user u.id tables.users ≡ some u
    → All (IsGuess crypto u.username u.password_hash start) gs
    → comparisons crypto gs tables ≤ guesses_left u.failed_login
comparisons_bounds crypto u start gs tables n i h =
    guesses_lem crypto u.username u.password_hash start gs u tables h
      (record { by_name = n; by_id = i; hashed = refl })
