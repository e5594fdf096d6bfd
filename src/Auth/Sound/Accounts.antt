-- ===== src/Auth/Sound/Accounts.antt =====
-- That the calls on accounts of internal/auth/auth.go keep the invariant of its tables.
use quetzalog.Base.{
  any_row, IsKey, ℕ, Bool, true, false, ◌&&◌, not, [], ◌∷◌, ◌≡◌, refl, Text, codes, equal, one_of,
  arith, Option, none, some, Bool-cases, inl, inr, if_rule,
}
use quetzalog.Auth.Tables.{
  User, Tables, answered, refused, failed, user_exists, user_is_admin, invalid_role,
  password_too_short, invalid_credentials, account_disabled, role_admin, is_role, get_user,
  get_user_by_username, update_users,
}
use quetzalog.Auth.Rows.{update_users-none, update_users-IsKey}
use quetzalog.Auth.Renamed.{renamed-IsKey}
use quetzalog.Auth.Users.{
  Crypto, Fresh, with_users, new_user, insert_hashed, or_viewer, create_user, ensure_default_admin,
  update_password, set_hash, pinned, set_users, disable_user, delete_user, update_user_role,
  enable_user, update_user, or_old, name_taken, changed,
}
use quetzalog.Auth.Login.{
  Attempt, authenticate, authenticate_as, logged_in, count_failure, count_failure_of,
  increment_failed_logins,
}
use quetzalog.Auth.Sound.{
  IsAccount, IsSound, LeavesSound, insert_user-IsSound, renaming-IsSound, set_users-IsSound, stays,
}

module _ (crypto : Crypto) (tables : Tables) (s : IsSound tables) where
  insert_hashed-IsSound :
      (fresh : Fresh) (username role : Text) (hash : Option Text)
      → is_role role ≡ true
      → LeavesSound (insert_hashed fresh username role hash tables)
  unfolding IsAccount
  insert_hashed-IsSound fresh username role none h = stays s (refused failed)
  insert_hashed-IsSound fresh username role (some hash) h =
      insert_user-IsSound (new_user fresh username hash role) tables (h, refl) s

  pub create_user-IsSound :
      (fresh : Fresh) (username password role : Text)
      → LeavesSound (create_user crypto fresh username password role tables)
  unfolding create_user
  create_user-IsSound fresh username password role = ground (
    arith,
    stays {A = Unit {0}} s (refused password_too_short),
    stays {A = Unit {0}} s (refused invalid_role),
    stays {A = Unit {0}} s (refused user_exists),
    insert_hashed-IsSound fresh username (or_viewer role)
        (crypto.hash_password fresh.salt password),
  )

  pub ensure_default_admin-IsSound :
      (fresh : Fresh) (password : Option Text) (random : Text)
      → LeavesSound (ensure_default_admin crypto fresh password random tables)
  unfolding ensure_default_admin is_role equal one_of
  ensure_default_admin-IsSound fresh password random = ground (
    arith,
    stays s (answered (tt {0})),
    insert_hashed-IsSound fresh (codes "admin") role_admin
        (crypto.hash_password fresh.salt (pinned password random)) refl,
  )

  set_hash-IsSound :
      (fresh : Fresh) (id : Text) (hash : Option Text) → LeavesSound (set_hash fresh id hash tables)
  unfolding IsAccount
  set_hash-IsSound fresh id none = stays s (refused failed)
  set_hash-IsSound fresh id (some hash) =
      set_users-IsSound id (λ u. record u { password_hash = hash; updated_at = fresh.now })
        (λ u. refl) tables s (λ u. refl) (λ u g a. a)

  pub update_password-IsSound :
      (fresh : Fresh) (id password : Text)
      → LeavesSound (update_password crypto fresh id password tables)
  unfolding update_password
  update_password-IsSound fresh id password = ground (
    arith,
    stays {A = Unit {0}} s (refused password_too_short),
    set_hash-IsSound fresh id (crypto.hash_password fresh.salt password),
  )

  pub disable_user-IsSound : (now : ℕ) (id : Text) → LeavesSound (disable_user now id tables)
  unfolding disable_user IsAccount
  disable_user-IsSound now id =
      set_users-IsSound id (λ u. record u { enabled = false; updated_at = now }) (λ u. refl) tables
        s (λ u. refl) (λ u g a. a)

  pub delete_user-IsSound : (now : ℕ) (id : Text) → LeavesSound (delete_user now id tables)
  unfolding delete_user disable_user
  delete_user-IsSound now id =
      ground (arith, stays {A = Unit {0}} s (refused user_is_admin), disable_user-IsSound now id)

  pub update_user_role-IsSound :
      (now : ℕ) (id role : Text) → LeavesSound (update_user_role now id role tables)
  unfolding update_user_role IsAccount
  update_user_role-IsSound now id role =
      if_rule LeavesSound (is_role role)
        (set_users id (λ u. record u { role = role; updated_at = now }) tables)
        (tables, refused invalid_role)
        (λ known.
          set_users-IsSound id (λ u. record u { role = role; updated_at = now }) (λ u. refl) tables
            s (λ u. refl) (λ u g a. (known, a.1)))
        (λ _. stays s (refused invalid_role))

  pub enable_user-IsSound : (now : ℕ) (id : Text) → LeavesSound (enable_user now id tables)
  unfolding enable_user IsAccount
  enable_user-IsSound now id =
      set_users-IsSound id
        (λ u. record u { enabled = true; locked_until = none; failed_login = 0; updated_at = now })
        (λ u. refl) tables s (λ u. refl) (λ u g a. (a.0, refl))

  count_failure-IsAccount :
      (now : ℕ) (u : User) → IsAccount u → IsAccount (count_failure now u.failed_login u)
  unfolding IsAccount
  count_failure-IsAccount now u a = ground arith

  failure-IsSound :
      (now : ℕ) (id : Text) (found : Option User)
      → get_user id tables.users ≡ found
      → IsSound (with_users (count_failure_of now id found tables.users) tables)
  unfolding LeavesSound
  failure-IsSound now id none e = s
  failure-IsSound now id (some u) e =
      set_users-IsSound id (count_failure now u.failed_login) (λ v. ground arith) tables s
        (λ v. ground arith)
        (λ v g a. let same : v ≡ u = cc in rw same (count_failure-IsAccount now u (rw (← same) a)))

  logged_in-IsSound :
      (now : ℕ) (id : Text)
      → IsSound (with_users (update_users id (logged_in now) tables.users) tables)
  unfolding LeavesSound IsAccount
  logged_in-IsSound now id =
      set_users-IsSound id (logged_in now) (λ v. refl) tables s (λ v. refl) (λ v g a. (a.0, refl))

  as_user-LeavesSound :
      (attempt : Attempt) (found : Option User)
      → LeavesSound (authenticate_as crypto attempt found tables)
  unfolding increment_failed_logins
  as_user-LeavesSound attempt none = stays s (refused invalid_credentials)
  as_user-LeavesSound attempt (some u) = ground (
    arith,
    stays {A = User} s (refused account_disabled),
    stays {A = User} (failure-IsSound attempt.later u.id (get_user u.id tables.users) refl)
        (refused invalid_credentials),
    stays (logged_in-IsSound attempt.later u.id)
        (answered (record u { last_login_at = some attempt.later })),
  )

  pub authenticate-IsSound : (attempt : Attempt) → LeavesSound (authenticate crypto attempt tables)
  unfolding authenticate
  authenticate-IsSound attempt =
      as_user-LeavesSound attempt (get_user_by_username attempt.username tables.users)

  free_name :
      (id username : Text) (f : User → User)
      → ((u : User) → (f u).username ≡ or_old u.username username)
      → name_taken id username tables.users ≡ false
      → IsKey (λ u. u.username) (update_users id f tables.users)
  unfolding equal
  free_name id [] f h free = update_users-IsKey (λ u. u.username) id f h tables.users s.usernames
  free_name id (c ∷ name) f h free = elim (Bool-cases (any_row (λ u. equal u.id id) tables.users)) [
    | inl held ↦ renamed-IsKey id (c ∷ name) f h tables.users s.user_ids s.usernames (ground arith)
    | inr none_held ↦ rw (update_users-none id f tables.users none_held) s.usernames
  ]

  changed-IsAccount :
      (now : ℕ) (username role : Text) (enabled : Option Bool) (u : User)
      → (not (equal role []) && not (is_role role)) ≡ false
      → IsAccount u
      → IsAccount (changed now username role enabled u)
  unfolding IsAccount equal
  changed-IsAccount now username [] enabled u h a = a
  changed-IsAccount now username (c ∷ role) enabled u h a = (ground arith, a.1)

  pub update_user-IsSound :
      (now : ℕ) (id username role : Text) (enabled : Option Bool)
      → LeavesSound (update_user now id username role enabled tables)
  unfolding update_user
  update_user-IsSound now id username role enabled =
      let f = changed now username role enabled in
      ground (
        arith,
        stays s (answered (tt {0})),
        stays {A = Unit {0}} s (refused invalid_role),
        stays {A = Unit {0}} s (refused failed),
        λ (h : (not (equal role []) && not (is_role role)) ≡ false)
              (free : name_taken id username tables.users ≡ false).
            renaming-IsSound id f (λ u. refl) tables s
              (λ u g a. changed-IsAccount now username role enabled u h a)
              (free_name id username f (λ u. refl) free),
      )
