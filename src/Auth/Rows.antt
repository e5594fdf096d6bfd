-- ===== src/Auth/Rows.antt =====
-- The rows of a table with a key, under the statements of internal/auth/auth.go.
use quetzalog.Base.{
  any_row, All, IsKey, Bool, false, List, [], ◌∷◌, ◌≡◌, refl, ap, Text, equal, equal_iff, arith,
  some, Bool-cases, inl, inr, if_rule,
}
use quetzalog.Auth.Tables.{User, Token, update_users, revoke_where, get_user}

-- A test that an update leaves alone.
pub any_row-update_users :
    (test : User → Bool) (id : Text) (f : User → User)
    → ((u : User) → test (f u) ≡ test u)
    → (us : List User) → any_row test (update_users id f us) ≡ any_row test us
unfolding any_row update_users
any_row-update_users test id f h [] = refl
any_row-update_users test id f h (u ∷ us) = ground (arith, h u, any_row-update_users test id f h us)

pub update_users-none :
    (id : Text) (f : User → User) (us : List User)
    → any_row (λ u. equal u.id id) us ≡ false
    → update_users id f us ≡ us
unfolding any_row update_users
update_users-none id f [] h = refl
update_users-none id f (u ∷ us) h = ground (arith, update_users-none id f us)

-- A column that an update leaves alone stays a key.
pub update_users-IsKey :
    (key : User → Text) (id : Text) (f : User → User)
    → ((u : User) → key (f u) ≡ key u)
    → (us : List User) → IsKey key us
    → IsKey key (update_users id f us)
unfolding IsKey update_users
update_users-IsKey key id f h [] k = tt
update_users-IsKey key id f h (u ∷ us) (a, k) =
    let same =
      any_row-update_users (λ v. equal (key v) (key u)) id f (λ v. ap (λ x. equal x (key u)) (h v))
        us in
    let more = update_users-IsKey key id f h us k in ground (arith, h u)

-- Only the row that is found changes.
pub All-update_users :
    (P : User → Type 0) (id : Text) (f : User → User) (us : List User)
    → IsKey (λ u. u.id) us
    → ((u : User) → get_user id us ≡ some u → P u → P (f u))
    → All P us
    → All P (update_users id f us)
unfolding IsKey update_users get_user
All-update_users P id f [] k h a = tt
All-update_users P id f (u ∷ us) (none_else, k) h (p, a) = elim (Bool-cases (equal u.id id)) [
  | inl e ↦
      let same = update_users-none id f us (rw (← (equal_iff u.id id).0 e) none_else) in
      rw (e, same) (h u (rw e refl) p, a)
  | inr e ↦ rw e (p, All-update_users P id f us k (λ v g. h v (rw e g)) a)
]

any_row-revoke_where :
    (test test' : Token → Bool)
    → ((t : Token) → test (record t { enabled = false }) ≡ test t)
    → (ts : List Token) → any_row test (revoke_where test' ts) ≡ any_row test ts
unfolding any_row revoke_where
any_row-revoke_where test test' h [] = refl
any_row-revoke_where test test' h (t ∷ ts) =
    ground (arith, h t, any_row-revoke_where test test' h ts)

pub revoke_where-IsKey :
    (key : Token → Text) (test : Token → Bool)
    → ((t : Token) → key (record t { enabled = false }) ≡ key t)
    → (ts : List Token) → IsKey key ts
    → IsKey key (revoke_where test ts)
unfolding IsKey revoke_where any_row
revoke_where-IsKey key test h [] k = tt
revoke_where-IsKey key test h (t ∷ ts) (a, k) =
    let same =
      any_row-revoke_where (λ s. equal (key s) (key t)) test (λ s. ap (λ x. equal x (key t)) (h s))
        ts in
    let more = revoke_where-IsKey key test h ts k in ground (arith, h t)

pub All-revoke_where :
    (P : Token → Type 0) (test : Token → Bool)
    → ((t : Token) → P t → P (record t { enabled = false }))
    → (ts : List Token) → All P ts
    → All P (revoke_where test ts)
unfolding revoke_where
All-revoke_where P test h [] a = tt
All-revoke_where P test h (t ∷ ts) (p, a) = (
  if_rule P (test t) (record t { enabled = false }) t (λ _. h t p) (λ _. p),
  All-revoke_where P test h ts a,
)
