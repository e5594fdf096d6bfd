-- ===== src/Spl/Parser/Expression/Complete.antt =====
-- Filters written out with all their parentheses, as tokens, for the expression parser of
-- internal/spl/parser/parser.go.
use quetzalog.Base.{
  ℕ, zero, suc, ◌+◌, ◌-◌, ◌*◌, ◌≤◌, true, false, List, [], ◌∷◌, ◌++◌, Text, length, codes, ◌≡◌,
  refl, ap, sym, subst, ◌∙◌, arith, ok, equal_iff, length-append, append_assoc, equal, append-nil,
}
use quetzalog.Spl.Unicode.{Unicode, equal_fold}
use quetzalog.Spl.Lexer.{Token, TokenKind, is_keyword, is_name, is_eof}
use quetzalog.Spl.Ast.{Expr, cmp, and_pair, or_pair, not_of}
use quetzalog.Spl.Parser.Expression.{
  parse_or, or_loop, parse_and, and_loop, parse_unary, parse_primary, parse_comparison, parse_name,
  parse_expr_tokens, depth_bound, comparison_op, starts_operand, read_value, value_of, cur, advance,
  is_lparen, is_rparen,
}

-- A token that is its own text.
abbrev pub plain_token : TokenKind → Text → Token
plain_token kind value = record { kind = kind; value = value; raw = value; quote = 0; pos = 0 }

abbrev pub word : Text → Token
word w = plain_token TokenKind.name w

abbrev pub left_paren : Token
left_paren = plain_token TokenKind.lparen (codes "(")

abbrev pub right_paren : Token
right_paren = plain_token TokenKind.rparen (codes ")")

pub data Filter : Type 0 where
  compare : (field op value : Token) → Filter
  both : Filter → Filter → Filter
  either : Filter → Filter → Filter
  negation : Filter → Filter

unfoldable pub spell : Filter → List Token
spell (compare f o v) = f ∷ o ∷ v ∷ []
spell (both a b) = left_paren ∷ (spell a ++ (word (codes "and") ∷ (spell b ++ (right_paren ∷ []))))
spell (either a b) = left_paren ∷ (spell a ++ (word (codes "or") ∷ (spell b ++ (right_paren ∷ []))))
spell (negation a) = word (codes "not") ∷ spell a

unfoldable pub meaning : Filter → Expr
meaning (compare f o v) = cmp f.value o.value v.value
meaning (both a b) = and_pair (meaning a) (meaning b)
meaning (either a b) = or_pair (meaning a) (meaning b)
meaning (negation a) = not_of (meaning a)

-- Each comparison is a name other than `not`, a comparison operator and a string.
unfoldable pub IsFilter : Unicode → Filter → Type 0
IsFilter u (compare f o v) =
    (f.kind ≡ TokenKind.name)
    × (is_keyword u f (codes "not") ≡ false)
    × (comparison_op o ≡ true)
    × (v.kind ≡ TokenKind.string)
IsFilter u (both a b) = IsFilter u a × IsFilter u b
IsFilter u (either a b) = IsFilter u a × IsFilter u b
IsFilter u (negation a) = IsFilter u a

module _ (u : Unicode) where
  word-is_keyword : (w : Text) → is_keyword u (word w) w ≡ true
  unfolding is_keyword is_name equal_fold
  word-is_keyword w = (equal_iff _ _).1 refl

  or-is_keyword_and : is_keyword u (word (codes "or")) (codes "and") ≡ false
  unfolding is_keyword is_name equal_fold equal
  or-is_keyword_and = ground arith

  compare_read :
      (k : ℕ) (f o v : Token) (rest : List Token)
      → IsFilter u (compare f o v)
      → parse_unary (suc (suc k)) u (f ∷ o ∷ v ∷ rest) ≡ ok (cmp f.value o.value v.value, rest)
  unfolding IsFilter parse_unary parse_primary parse_comparison parse_name read_value value_of cur
      advance is_lparen
  compare_read k f o v rest (name, other, op, string) = rw (other, name, op, string) refl

  negation_read :
      (k : ℕ) (ts rest : List Token) (e : Expr)
      → parse_unary k u ts ≡ ok (e, rest)
      → parse_unary (suc k) u (word (codes "not") ∷ ts) ≡ ok (not_of e, rest)
  unfolding parse_unary cur advance
  negation_read k ts rest e h = rw (word-is_keyword (codes "not"), h) refl

  group_step :
      (k : ℕ) (ts rest : List Token) (e : Expr)
      → parse_or k u ts ≡ ok (e, right_paren ∷ rest)
      → parse_unary (suc (suc k)) u (left_paren ∷ ts) ≡ ok (e, rest)
  unfolding parse_unary parse_primary cur advance is_lparen is_rparen is_keyword is_name
  group_step k ts rest e h = rw h refl

  parse_and_step :
      (k : ℕ) (ts r : List Token) (a : Expr)
      → parse_unary k u ts ≡ ok (a, r)
      → parse_and (suc k) u ts ≡ and_loop k u a r
  unfolding parse_and
  parse_and_step k ts r a h = rw h refl

  and_loop-word :
      (k : ℕ) (us r : List Token) (a b : Expr)
      → parse_unary k u us ≡ ok (b, r)
      → and_loop (suc k) u a (word (codes "and") ∷ us) ≡ and_loop k u (and_pair a b) r
  unfolding and_loop cur advance
  and_loop-word k us r a b h = rw (word-is_keyword (codes "and"), h) refl

  parse_or_step :
      (k : ℕ) (ts r : List Token) (a : Expr)
      → parse_and k u ts ≡ ok (a, r)
      → parse_or (suc k) u ts ≡ or_loop k u a r
  unfolding parse_or
  parse_or_step k ts r a h = rw h refl

  or_loop-word :
      (k : ℕ) (us r : List Token) (a b : Expr)
      → parse_and k u us ≡ ok (b, r)
      → or_loop (suc k) u a (word (codes "or") ∷ us) ≡ or_loop k u (or_pair a b) r
  unfolding or_loop cur advance
  or_loop-word k us r a b h = rw (word-is_keyword (codes "or"), h) refl

  and_loop_close :
      (k : ℕ) (r : List Token) (a : Expr)
      → and_loop (suc k) u a (right_paren ∷ r) ≡ ok (a, right_paren ∷ r)
  unfolding and_loop cur is_keyword is_name starts_operand
  and_loop_close k r a = refl

  or_loop_close :
      (k : ℕ) (r : List Token) (a : Expr)
      → or_loop (suc k) u a (right_paren ∷ r) ≡ ok (a, right_paren ∷ r)
  unfolding or_loop cur is_keyword is_name
  or_loop_close k r a = refl

  and_loop_or :
      (k : ℕ) (r : List Token) (a : Expr)
      → and_loop (suc k) u a (word (codes "or") ∷ r) ≡ ok (a, word (codes "or") ∷ r)
  unfolding and_loop cur starts_operand
  and_loop_or k r a = rw (or-is_keyword_and, word-is_keyword (codes "or")) refl

  module _ (k : ℕ) (ts us rest : List Token) (a b : Expr) where
    both_read :
        parse_unary (suc (suc k)) u (ts ++ (word (codes "and") ∷ us))
          ≡ ok (a, word (codes "and") ∷ us)
        → parse_unary (suc k) u us ≡ ok (b, right_paren ∷ rest)
        → parse_unary
            (suc (suc (suc (suc (suc (suc k))))))
            u
            (left_paren ∷ (ts ++ (word (codes "and") ∷ us)))
          ≡ ok (and_pair a b, rest)
    both_read h j = group_step _ _ _ _ (
        parse_or_step _ _ _ _
          (parse_and_step _ _ _ _ h ∙ and_loop-word _ _ _ _ _ j ∙ and_loop_close _ _ _)
        ∙ or_loop_close _ _ _)

    either_read :
        parse_unary (suc (suc k)) u (ts ++ (word (codes "or") ∷ us))
          ≡ ok (a, word (codes "or") ∷ us)
        → parse_unary (suc k) u us ≡ ok (b, right_paren ∷ rest)
        → parse_unary
            (suc (suc (suc (suc (suc (suc k))))))
            u
            (left_paren ∷ (ts ++ (word (codes "or") ∷ us)))
          ≡ ok (or_pair a b, rest)
    either_read h j = group_step _ _ _ _ (
        parse_or_step _ _ _ _ (parse_and_step _ _ _ _ h ∙ and_loop_or _ _ _)
        ∙ or_loop-word _ _ _ _ _ (parse_and_step _ _ _ _ j ∙ and_loop_close _ _ _)
        ∙ or_loop_close _ _ _)

-- The tokens of two filters in parentheses, with what stands behind them.
spell_append :
    (l r w : Token) (ts us rest : List Token)
    → (l ∷ (ts ++ (w ∷ (us ++ (r ∷ []))))) ++ rest ≡ l ∷ (ts ++ (w ∷ (us ++ (r ∷ rest))))
spell_append l r w ts us rest = rw (append_assoc, append_assoc)

length-pair :
    (l r w : Token) (ts us : List Token)
    → length (l ∷ (ts ++ (w ∷ (us ++ (r ∷ []))))) ≡ length ts + length us + 3
length-pair l r w ts us =
    omega (arith, length-append ts (w ∷ (us ++ (r ∷ []))), length-append us (r ∷ []))

from_six :
    (P : ℕ → Type 0) (n : ℕ)
    → 6 ≤ n
    → ((k : ℕ) → n ≡ k + 6 → P (suc (suc (suc (suc (suc (suc k)))))))
    → P n
from_six P n h f = subst P (omega arith) (f (n - 6) (omega arith))

spell_read :
    (u : Unicode) (x : Filter) (fuel : ℕ) (rest : List Token)
    → IsFilter u x
    → 4 * length (spell x) + 2 ≤ fuel
    → parse_unary fuel u (spell x ++ rest) ≡ ok (meaning x, rest)
unfolding spell meaning IsFilter
spell_read u (compare f o v) zero rest h n = absurd (omega arith)
spell_read u (compare f o v) (suc zero) rest h n = absurd (omega arith)
spell_read u (compare f o v) (suc (suc k)) rest h n = compare_read u k f o v rest h
spell_read u (both a b) fuel rest h n =
    let size = length-pair left_paren right_paren (word (codes "and")) (spell a) (spell b) in
    from_six (λ m. parse_unary m u (spell (both a b) ++ rest) ≡ ok (meaning (both a b), rest)) fuel
      (omega (arith, size, n))
      (λ k e.
        ap (parse_unary _ u)
          (spell_append left_paren right_paren (word (codes "and")) (spell a) (spell b) rest)
        ∙ both_read u k (spell a) (spell b ++ (right_paren ∷ rest)) rest (meaning a) (meaning b)
            (spell_read u a _ _ h.0 (omega (arith, size, n, e)))
            (spell_read u b _ _ h.1 (omega (arith, size, n, e))))
spell_read u (either a b) fuel rest h n =
    let size = length-pair left_paren right_paren (word (codes "or")) (spell a) (spell b) in
    from_six (λ m. parse_unary m u (spell (either a b) ++ rest) ≡ ok (meaning (either a b), rest))
      fuel (omega (arith, size, n))
      (λ k e.
        ap (parse_unary _ u)
          (spell_append left_paren right_paren (word (codes "or")) (spell a) (spell b) rest)
        ∙ either_read u k (spell a) (spell b ++ (right_paren ∷ rest)) rest (meaning a) (meaning b)
            (spell_read u a _ _ h.0 (omega (arith, size, n, e)))
            (spell_read u b _ _ h.1 (omega (arith, size, n, e))))
spell_read u (negation a) zero rest h n = absurd (omega arith)
spell_read u (negation a) (suc k) rest h n =
    negation_read u k (spell a ++ rest) rest (meaning a)
      (spell_read u a k rest h (omega (arith, n)))

loops_end :
    (u : Unicode) (k : ℕ) (e : Expr)
    → (and_loop (suc k) u e [] ≡ ok (e, [])) × (or_loop (suc k) u e [] ≡ ok (e, []))
unfolding and_loop or_loop cur is_keyword is_name starts_operand
loops_end u k e = (refl, refl)

parse_or-spell :
    (u : Unicode) (x : Filter) (k : ℕ)
    → IsFilter u x
    → 4 * length (spell x) + 2 ≤ suc k
    → parse_or (suc (suc (suc k))) u (spell x) ≡ ok (meaning x, [])
parse_or-spell u x k h n =
    parse_or_step u (suc (suc k)) (spell x) [] (meaning x) (
      parse_and_step u (suc k) (spell x) [] (meaning x)
        (ap (parse_unary (suc k) u) (sym (append-nil (spell x))) ∙ spell_read u x (suc k) [] h n)
      ∙ (loops_end u k (meaning x)).0)
    ∙ (loops_end u (suc k) (meaning x)).1

-- Every filter of comparisons of a field with a string, negations, and conjunctions and disjunctions
-- in parentheses, spelled as tokens, is parsed to exactly its tree.
pub parse_expr_tokens-spell :
    (u : Unicode) (x : Filter) → IsFilter u x → parse_expr_tokens u (spell x) ≡ ok (meaning x)
unfolding parse_expr_tokens cur is_eof
parse_expr_tokens-spell u x h =
    let bound : depth_bound (spell x) ≡ suc (suc (suc (4 * length (spell x) + 1))) = omega arith in
    let parsed : parse_or (depth_bound (spell x)) u (spell x) ≡ ok (meaning x, []) =
      ap (λ k. parse_or k u (spell x)) bound
      ∙ parse_or-spell u x (4 * length (spell x) + 1) h (omega arith) in
    rw parsed refl
