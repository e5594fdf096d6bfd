-- ===== src/Spl/Executor/Rows/Limits.antt =====
-- What the limits of internal/spl/executor/executor.go keep: `headN`, which narrows the LIMIT of
-- the SQL statement, against `applyHeadTail`, which cuts the rows afterwards.
use quetzalog.Base.{
  ◌<◌, ℕ, ℤ, pos, negsuc, zero, suc, Bool, true, false, List, [], ◌∷◌, length, take, ◌-◌, ◌≤◌, ◌≡◌,
  refl, sym, ◌∙◌, ap, ltb, if◌then◌else◌, if_rule, length-take, length-drop, take_all, subst, arith,
}
use Prim.Native.Nat.{min}
use quetzalog.Spl.Ast.{Node, head, tail}
use quetzalog.Spl.Executor.Rows.{
  max_result_rows, query_limit, clamp_limit, head_n, narrow, count_of, head_tail, apply_head_tail,
}

-- No command of the query is a `tail`.
unfoldable pub HasNoTail : List Node → Type 0
HasNoTail [] = Unit
HasNoTail (tail n ∷ q) = ⊥
HasNoTail (_ ∷ q) = HasNoTail q

-- The least count of the heads of a query and a bound.
unfoldable pub cap : List Node → ℕ → ℕ
unfolding count_of
cap [] n = n
cap (head k ∷ q) n = cap q (min n (count_of k))
cap (_ ∷ q) n = cap q n

cap-min : (q : List Node) (a b : ℕ) → cap q (min a b) ≡ min (cap q a) b
unfolding cap
cap-min [] a b = refl
cap-min (head k ∷ q) a b = ap (cap q) (omega arith) ∙ cap-min q (min a (count_of k)) b
cap-min (_ ∷ q) a b = cap-min q a b

narrow_le : (n : ℕ) (c : Node) → narrow n c ≤ n
unfolding narrow
narrow_le n (head (pos k)) =
    if_rule (λ m. m ≤ n) (ltb k n) k n (λ e. ground arith) (λ e. omega arith)
narrow_le n _ = omega arith

head_n_le : (q : List Node) (n : ℕ) → head_n q n ≤ n
unfolding head_n
head_n_le [] n = omega arith
head_n_le (c ∷ q) n = omega (arith, head_n_le q (narrow n c), narrow_le n c)

cap_bound : (q : List Node) (n : ℕ) → cap q n ≤ n
unfolding cap
cap_bound [] n = omega arith
cap_bound (head k ∷ q) n = omega (arith, cap_bound q (min n (count_of k)))
cap_bound (_ ∷ q) n = cap_bound q n

narrow-min : (n k : ℕ) → narrow n (head (pos k)) ≡ min n k
unfolding narrow
narrow-min n k = if_rule (λ m. m ≡ min n k) (ltb k n) k n (λ e. ground arith) (λ e. ground arith)

cap_le : (q : List Node) (n : ℕ) → cap q n ≤ head_n q n
unfolding cap head_n narrow
cap_le [] n = omega arith
cap_le (head (pos k) ∷ q) n =
    subst (λ m. cap q (min n k) ≤ head_n q m) (sym (narrow-min n k)) (cap_le q (min n k))
cap_le (head (negsuc k) ∷ q) n = omega (arith, cap_bound q (min n 0))
cap_le (_ ∷ q) n = cap_le q n

-- Narrowing the bound first changes nothing.
cap-head_n : (q : List Node) (n : ℕ) → cap q (head_n q n) ≡ cap q n
cap-head_n q n =
    ap (cap q) (omega (arith, head_n_le q n)) ∙ cap-min q n (head_n q n) ∙ omega (arith, cap_le q n)

narrow_mono : (c : Node) (m n : ℕ) → m ≤ n → narrow m c ≤ narrow n c
unfolding narrow
narrow_mono (head (pos k)) m n h = omega (arith, narrow-min m k, narrow-min n k, h)
narrow_mono _ m n h = h

head_n_mono : (q : List Node) (m n : ℕ) → m ≤ n → head_n q m ≤ head_n q n
unfolding head_n
head_n_mono [] m n h = h
head_n_mono (c ∷ q) m n h = head_n_mono q (narrow m c) (narrow n c) (narrow_mono c m n h)

module _ {ℓ} {A : Type ℓ} where
  take-take : (m n p : ℕ) (xs : List A) → p ≡ min n m → take m (take n xs) ≡ take p xs
  take-take zero n zero xs h = refl
  take-take zero n (suc p) xs h = absurd (omega arith)
  take-take (suc m) zero zero xs h = refl
  take-take (suc m) zero (suc p) xs h = absurd (omega arith)
  take-take (suc m) (suc n) zero xs h = absurd (omega arith)
  take-take (suc m) (suc n) (suc p) [] h = refl
  take-take (suc m) (suc n) (suc p) (x ∷ xs) h = ap (◌∷◌ x) (take-take m n p xs (omega arith))

  head_tail-take : (k : ℤ) (xs : List A) → head_tail (head k) xs ≡ take (count_of k) xs
  unfolding head_tail
  head_tail-take k xs =
      if_rule (λ r. r ≡ take (count_of k) xs) (ltb (count_of k) (length xs)) (take (count_of k) xs)
        xs (λ e. refl) (λ e. sym (take_all (count_of k) xs (ground arith)))

  pub apply_head_tail-cap :
      (q : List Node) (n : ℕ) (xs : List A)
      → HasNoTail q
      → apply_head_tail q (take n xs) ≡ take (cap q n) xs
  unfolding apply_head_tail cap HasNoTail head_tail
  apply_head_tail-cap [] n xs h = refl
  apply_head_tail-cap (head k ∷ q) n xs h =
      ap (apply_head_tail q) (head_tail-take k (take n xs) ∙ take-take (count_of k) n _ xs refl)
      ∙ apply_head_tail-cap q (min n (count_of k)) xs h
  apply_head_tail-cap (tail k ∷ q) n xs h = absurd h
  apply_head_tail-cap (_ ∷ q) n xs h = apply_head_tail-cap q n xs h

  -- On a query without `tail`, `applyHeadTail` leaves the same of the first `headN(q, limit)` rows
  -- as of the first `limit` rows.
  apply_head_tail-head_n :
      (q : List Node) (limit : ℕ) (rows : List A)
      → HasNoTail q
      → apply_head_tail q (take (head_n q limit) rows) ≡ apply_head_tail q (take limit rows)
  apply_head_tail-head_n q limit rows h =
      apply_head_tail-cap q (head_n q limit) rows h
      ∙ ap (λ n. take n rows) (cap-head_n q limit)
      ∙ sym (apply_head_tail-cap q limit rows h)

  length-if :
      (b : Bool) (n : ℕ) (xs ys : List A)
      → (b ≡ true → length xs ≤ n)
      → (b ≡ false → length ys ≤ n)
      → length (if b then xs else ys) ≤ n
  length-if b n xs ys h k = if_rule (λ r. length r ≤ n) b xs ys h k

  length-head_tail : (c : Node) (xs : List A) → length (head_tail c xs) ≤ narrow (length xs) c
  unfolding head_tail narrow count_of
  length-head_tail (head (pos k)) xs = ground (arith, length-take k xs)
  length-head_tail (head (negsuc k)) xs = ground arith
  length-head_tail (tail n) xs = ground (arith, length-drop (length xs - count_of n) xs)
  length-head_tail _ xs = omega arith

  -- A query returns no more rows than `headN` says for the rows it is given, with tails and
  -- negative counts among its commands too.
  pub length-apply_head_tail :
      (q : List Node) (rows : List A) → length (apply_head_tail q rows) ≤ head_n q (length rows)
  unfolding apply_head_tail head_n
  length-apply_head_tail [] rows = omega arith
  length-apply_head_tail (c ∷ q) rows = omega (
    arith,
    length-apply_head_tail q (head_tail c rows),
    head_n_mono q (length (head_tail c rows)) (narrow (length rows) c) (length-head_tail c rows),
  )

query_limit_pos : (z : ℤ) → 0 < query_limit z
unfolding query_limit
query_limit_pos (negsuc n) = omega arith
query_limit_pos (pos n) = ground arith

query_limit_le : (z : ℤ) → query_limit z ≤ max_result_rows
unfolding query_limit
query_limit_le (negsuc n) = omega arith
query_limit_le (pos n) = ground arith

clamp_limit_below : (n : ℕ) → n ≤ max_result_rows → clamp_limit (pos n) ≡ n
unfolding clamp_limit
clamp_limit_below n h = ground arith

-- For every limit a caller asks for, `RunQuery` settles on a limit from 1 to `MaxResultRows`, which
-- `clampLimit` leaves as it is, also where `headN` has narrowed it.
clamp_limit-query_limit :
    (q : List Node) (asked : ℤ)
    → (0 < query_limit asked)
      × (query_limit asked ≤ max_result_rows)
      × (clamp_limit (pos (query_limit asked)) ≡ query_limit asked)
      × (clamp_limit (pos (head_n q (query_limit asked))) ≡ head_n q (query_limit asked))
clamp_limit-query_limit q asked =
    let top = query_limit_le asked in
    (
      query_limit_pos asked,
      top,
      clamp_limit_below (query_limit asked) top,
      clamp_limit_below (head_n q (query_limit asked))
          (omega (arith, head_n_le q (query_limit asked), top)),
    )
