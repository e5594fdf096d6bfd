-- ===== src/Spl/Serializer/Counts.antt =====
-- The counts that internal/spl/serializer/serializer.go writes with `itoa` and
-- internal/spl/parser/parser.go reads with `strconv.Atoi`.
use quetzalog.Base.{
  ℕ, ℤ, pos, negsuc, zero, suc, ◌+◌, ◌-◌, ◌*◌, ◌/◌, ◌%◌, ◌≤◌, true, ◌&&◌, List, [], ◌∷◌, ◌≡◌, refl,
  ◌∙◌, ap, Text, some, none, leb, ◌==◌, if_rule, max_int, digits_value, unsigned, atoi, ok, arith,
}
use quetzalog.Spl.Serializer.Text.{itoa, digits_onto}
use quetzalog.Spl.Lexer.{Token, TokenKind}
use quetzalog.Spl.Ast.{head, tail}
use quetzalog.Spl.Parser.Commands.{parse_count, parse_head, parse_tail}

digits_value-digit :
    (n : ℕ) (s : Text) → digits_value (n / 10) ((b'0' + n % 10) ∷ s) ≡ digits_value n s
unfolding digits_value
digits_value-digit n s =
    if_rule (λ o. o ≡ digits_value n s) (leb b'0' (b'0' + n % 10) && leb (b'0' + n % 10) b'9')
      (digits_value (n / 10 * 10 + (b'0' + n % 10 - b'0')) s) none
      (λ _. ap (λ m. digits_value m s) (omega arith)) (λ e. absurd (ground arith))

digits_value-digits_onto :
    (fuel n : ℕ) (s : Text) → n ≤ fuel → digits_value 0 (digits_onto fuel n s) ≡ digits_value n s
unfolding digits_onto
digits_value-digits_onto zero n s h = ap (λ m. digits_value m s) (omega arith)
digits_value-digits_onto (suc fuel) n s h =
    if_rule (λ t. digits_value 0 t ≡ digits_value n s) (n == 0) s _
      (λ e. ap (λ m. digits_value m s) (ground arith))
      (λ e. digits_value-digits_onto fuel (n / 10) _ (ground arith) ∙ digits_value-digit n s)

-- A Go integer other than the least.
unfoldable pub IsCount : ℤ → Type 0
IsCount (pos n) = n ≤ max_int
IsCount (negsuc n) = suc n ≤ max_int

atoi-pos :
    (s : Text) (n : ℕ)
    → digits_value 0 s ≡ some (suc n)
    → suc n ≤ max_int
    → atoi s ≡ (pos (suc n), true)
unfolding digits_value atoi unsigned
atoi-pos [] n h k = absurd (cc)
atoi-pos (c ∷ s) n h k = ground arith

atoi-neg :
    (s : Text) (n : ℕ)
    → digits_value 0 s ≡ some (suc n)
    → suc n ≤ max_int
    → atoi (b'-' ∷ s) ≡ (negsuc n, true)
unfolding digits_value atoi unsigned
atoi-neg [] n h k = absurd (cc)
atoi-neg (c ∷ s) n h k = ground arith

digits_value-digits : (n : ℕ) → digits_value 0 (digits_onto n n []) ≡ some n
unfolding digits_value
digits_value-digits n = digits_value-digits_onto n n [] (omega arith)

pub atoi-itoa : (z : ℤ) → IsCount z → atoi (itoa z) ≡ (z, true)
unfolding itoa IsCount atoi unsigned digits_value
atoi-itoa (pos zero) h = refl
atoi-itoa (pos (suc n)) h =
    atoi-pos (digits_onto (suc n) (suc n) []) n (digits_value-digits (suc n)) h
atoi-itoa (negsuc n) h = atoi-neg (digits_onto (suc n) (suc n) []) n (digits_value-digits (suc n)) h

-- A number token over the text that `itoa` writes for a Go integer other than the least is read
-- back as that integer by `head` and by `tail`.
pub parse_head-itoa :
    (z : ℤ) (t : Token) (ts : List Token)
    → IsCount z
    → t.kind ≡ TokenKind.number
    → t.value ≡ itoa z
    → (parse_head (t ∷ ts) ≡ ok (head z)) × (parse_tail (t ∷ ts) ≡ ok (tail z))
unfolding parse_head parse_tail parse_count
parse_head-itoa z t ts h k v = (rw (k, v, atoi-itoa z h) refl, rw (k, v, atoi-itoa z h) refl)
