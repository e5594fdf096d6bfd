-- ===== src/Auth/Renamed.antt =====
-- That a username stays a key when `UpdateUser` of internal/auth/auth.go sets it.
use quetzalog.Base.{
  any_row, IsKey, false, ◌&&◌, not, List, [], ◌∷◌, ◌≡◌, refl, Text, equal, equal_iff, arith,
  Bool-cases, inl, inr,
}
use quetzalog.Auth.Tables.{User, update_users}
use quetzalog.Auth.Rows.{update_users-none}

module _ (id name : Text) where
  any_row-name :
      (us : List User)
      → any_row (λ u. equal u.username name && not (equal u.id id)) us ≡ false
      → any_row (λ u. equal u.id id) us ≡ false
      → any_row (λ u. equal u.username name) us ≡ false
  unfolding any_row
  any_row-name [] h k = refl
  any_row-name (u ∷ us) h k = ground (arith, any_row-name us)

  module _ (f : User → User) (renames : (u : User) → (f u).username ≡ name) where
    any_row-renamed :
        (other : Text) (us : List User)
        → equal name other ≡ false
        → any_row (λ u. equal u.username other) us ≡ false
        → any_row (λ u. equal u.username other) (update_users id f us) ≡ false
    unfolding any_row update_users
    any_row-renamed other [] h k = refl
    any_row-renamed other (u ∷ us) h k = ground (arith, renames u, any_row-renamed other us)

    pub renamed-IsKey :
        (us : List User)
        → IsKey (λ u. u.id) us
        → IsKey (λ u. u.username) us
        → any_row (λ u. equal u.username name && not (equal u.id id)) us ≡ false
        → IsKey (λ u. u.username) (update_users id f us)
    unfolding IsKey any_row update_users
    renamed-IsKey [] i n h = tt
    renamed-IsKey (u ∷ us) (i, is) (n, ns) h = elim (Bool-cases (equal u.id id)) [
      | inl e ↦
          let no_other : any_row (λ v. equal v.id id) us ≡ false =
            rw (← (equal_iff u.id id).0 e) i in
          let same = update_users-none id f us no_other in
          rw (e, same) (ground (arith, renames u, any_row-name us), ns)
      | inr e ↦ rw e (
        any_row-renamed u.username us
            (ground (arith, equal_iff u.username name, equal_iff name u.username)) n,
        renamed-IsKey us is ns (ground arith),
      )
    ]
