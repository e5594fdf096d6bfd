-- ===== src/Spl/Serializer/Digits.antt =====
-- What the scanner of internal/spl/lexer/lexer.go reads of the digits that `itoa` of
-- internal/spl/serializer/serializer.go writes.
use quetzalog.Base.{
  ℕ, pos, zero, suc, ◌+◌, ◌/◌, ◌%◌, ◌≤◌, Bool, true, false, not, ◌||◌, List, [], ◌∷◌, ◌++◌, ◌≡◌,
  ◌≢◌, atoi, max_int, refl, ap, sym, ◌∙◌, Text, ◌==◌, if_rule, ok, arith,
}
use quetzalog.Spl.Unicode.{Unicode, is_space}
use quetzalog.Spl.Lexer.{Lexer, TokenKind, Token, next, next_at, skip_space, skip_from, scan_number}
use quetzalog.Spl.Lexer.Scan.{is_digit, push, number_step, number_span}
use quetzalog.Spl.Serializer.Text.{itoa, digits_onto}
use quetzalog.Spl.Ast.{head, tail}
use quetzalog.Spl.Parser.Commands.{parse_head, parse_tail}
use quetzalog.Spl.Serializer.Counts.{IsCount, atoi-itoa, parse_head-itoa}

abbrev AreDigits : Text → Type 0
AreDigits [] = Unit
AreDigits (c ∷ s) = (is_digit c ≡ true) × AreDigits s

digit-is_digit : (n : ℕ) → is_digit (b'0' + n % 10) ≡ true
unfolding is_digit
digit-is_digit n = ground arith

digits_onto-AreDigits : (fuel n : ℕ) (s : Text) → AreDigits s → AreDigits (digits_onto fuel n s)
unfolding digits_onto
digits_onto-AreDigits zero n s h = h
digits_onto-AreDigits (suc fuel) n s h =
    if_rule AreDigits (n == 0) s _ (λ _. h)
      (λ _. digits_onto-AreDigits fuel (n / 10) _ (digit-is_digit n, h))

-- The text does not go on like a number.
unfoldable pub ends_number : Text → Bool
unfolding is_digit
ends_number [] = true
ends_number (c ∷ _) = not (is_digit c || c == b'.' || c == b'e' || c == b'E')

number_span_digit :
    (c : ℕ) (r : Text)
    → is_digit c ≡ true
    → number_span false (c ∷ r) ≡ push c (number_span false r)
unfolding number_span number_step
number_span_digit c r h = ground arith

number_span_end : (r : Text) → ends_number r ≡ true → number_span false r ≡ ([], r)
unfolding number_span number_step ends_number
number_span_end [] e = refl
number_span_end (c ∷ r) e = ground arith

number_span-digits :
    (s r : Text) → AreDigits s → ends_number r ≡ true → number_span false (s ++ r) ≡ (s, r)
number_span-digits [] r h e = number_span_end r e
number_span-digits (c ∷ s) r h e =
    number_span_digit c (s ++ r) h.0 ∙ ap (push c) (number_span-digits s r h.1 e)

next_at-digit :
    (u : Unicode) (l : Lexer) (c : ℕ) (r : Text)
    → is_digit c ≡ true
    → next_at u l (c ∷ r) ≡ scan_number l
unfolding next_at is_digit
next_at-digit u l c r h = ground arith

skip_from-digit :
    (before : Text) (c : ℕ) (r : Text)
    → is_digit c ≡ true
    → skip_from before (c ∷ r) ≡ record { before = before; rest = c ∷ r }
unfolding skip_from is_space is_digit
skip_from-digit before c r h = ground arith

next_digits :
    (u : Unicode) (l : Lexer) (s r : Text)
    → AreDigits s
    → s ≢ []
    → ends_number r ≡ true
    → l.rest ≡ s ++ r
    → ((next u l).1.kind ≡ TokenKind.number) × ((next u l).1.value ≡ s) × ((next u l).0.rest ≡ r)
unfolding next skip_space scan_number
next_digits u l [] r h ne e k = absurd (ne refl)
next_digits u l (c ∷ s) r h ne e k =
    rw
      (
        k,
        skip_from-digit l.before c (s ++ r) h.0,
        next_at-digit u (record { before = l.before; rest = c ∷ (s ++ r) }) c (s ++ r) h.0,
        number_span-digits (c ∷ s) r h e,
      )
      (refl, refl, refl)

itoa-AreDigits : (n : ℕ) → AreDigits (itoa (pos n))
unfolding itoa is_digit
itoa-AreDigits zero = (refl, tt)
itoa-AreDigits (suc n) = digits_onto-AreDigits (suc n) (suc n) [] tt

itoa-not_empty : (n : ℕ) → n ≤ max_int → itoa (pos n) ≢ []
unfolding atoi IsCount
itoa-not_empty n h e =
    true-not_false (sym (ap (λ p. p.1) (atoi-itoa (pos n) h)) ∙ ap (λ s. (atoi s).1) e)
  where
    true-not_false : true ≡ false → ⊥
    true-not_false c = cc

-- What `itoa` writes for a count that is not negative, with nothing behind it that goes on like a
-- number, is scanned as one token, and `head` and `tail` read the count back from that token.
next-itoa :
    (u : Unicode) (l : Lexer) (n : ℕ) (r : Text) (ts : List Token)
    → n ≤ max_int
    → ends_number r ≡ true
    → l.rest ≡ itoa (pos n) ++ r
    → ((next u l).0.rest ≡ r)
      × (parse_head ((next u l).1 ∷ ts) ≡ ok (head (pos n)))
      × (parse_tail ((next u l).1 ∷ ts) ≡ ok (tail (pos n)))
unfolding IsCount
next-itoa u l n r ts h e k =
    let (kind, value, rest) =
      next_digits u l (itoa (pos n)) r (itoa-AreDigits n) (itoa-not_empty n h) e k in
    let (heads, tails) = parse_head-itoa (pos n) (next u l).1 ts h kind value in
    (rest, heads, tails)
