-- ===== src/Spl/Lexer/Literals.antt =====
-- `StringLiteral` of internal/spl/lexer/lexer.go, and what the scanner reads back from it.
use quetzalog.Base.{
  ℕ, ◌≤◌, Bool, true, false, not, ◌&&◌, ◌||◌, [], ◌∷◌, ◌++◌, ◌≡◌, ◌↔◌, refl, ap, ◌∙◌, arith, Text,
  length, ◌==◌, if◌then◌else◌, append_assoc, codes,
}
use quetzalog.Spl.Lexer.{Lexer, TokenKind, scan_string, next_at, skip_space, skip_from, next}
use quetzalog.Spl.Lexer.Scan.{string_step, string_body}
use quetzalog.Spl.Unicode.{Unicode, is_space}

-- What `StringLiteral` writes for one rune.
unfoldable pub literal_rune : ℕ → Text
literal_rune c =
    if c == b'"'
    then codes "\\\""
    else if c == b'\\'
    then codes "\\\\"
    else if c == b'\n'
    then codes "\\n"
    else if c == b'\r'
    then codes "\\r"
    else if c == b'\t'
    then codes "\\t"
    else c ∷ []

unfoldable pub literal_body : Text → Text
literal_body [] = b'"' ∷ []
literal_body (c ∷ s) = literal_rune c ++ literal_body s

unfoldable pub string_literal : Text → Text
string_literal s = b'"' ∷ literal_body s

-- The runes that `StringLiteral` writes as a letter behind a backslash, and the scanner's reading
-- of them: the backslash and the letter.
abbrev pub is_control : ℕ → Bool
is_control c = c == b'\n' || c == b'\r' || c == b'\t'

unfoldable pub read_rune : ℕ → Text
unfolding literal_rune
read_rune c = if is_control c then literal_rune c else c ∷ []

unfoldable pub read_back : Text → Text
read_back [] = []
read_back (c ∷ s) = read_rune c ++ read_back s

unfoldable pub has_no_control : Text → Bool
has_no_control [] = true
has_no_control (c ∷ s) = not (is_control c) && has_no_control s

string_body-literal_rune :
    (c : ℕ) (r : Text)
    → let scan = string_body b'"' false in
      ((scan (literal_rune c ++ r)).0 ≡ read_rune c ++ (scan r).0)
      × ((scan (literal_rune c ++ r)).2 ≡ (scan r).2)
unfolding string_body string_step literal_rune read_rune
string_body-literal_rune c r = ground arith

string_body-literal_body :
    (s r : Text)
    → ((string_body b'"' false (literal_body s ++ r)).0 ≡ read_back s)
      × ((string_body b'"' false (literal_body s ++ r)).2 ≡ r)
unfolding literal_body read_back
string_body-literal_body [] r = unfold string_body string_step in (refl, refl)
string_body-literal_body (c ∷ s) r =
    let here = string_body-literal_rune c (literal_body s ++ r) in
    let later = string_body-literal_body s r in
    rw append_assoc (here.0 ∙ ap (◌++◌ (read_rune c)) later.0, here.1 ∙ later.1)

next-string_literal_parts :
    (u : Unicode) (l : Lexer) (s r : Text)
    → l.rest ≡ string_literal s ++ r
    → ((next u l).1.kind ≡ TokenKind.string)
      × ((next u l).1.value ≡ read_back s)
      × ((next u l).1.quote ≡ b'"')
      × ((next u l).0.rest ≡ r)
unfolding next next_at skip_space skip_from string_literal scan_string
next-string_literal_parts u l s r h = rw h (
    unfold is_space in
    (refl, (string_body-literal_body s r).0, refl, (string_body-literal_body s r).1))

length-read_back : (s : Text) → length s ≤ length (read_back s)
unfolding read_back read_rune
length-read_back [] = omega arith
length-read_back (c ∷ s) = ground (arith, length-read_back s)

read_back-eq_self : (s : Text) → (read_back s ≡ s) ↔ (has_no_control s ≡ true)
unfolding read_back has_no_control read_rune
read_back-eq_self [] = (λ _. refl, λ _. refl)
read_back-eq_self (c ∷ s) = ground (arith, read_back-eq_self s, length-read_back s)

-- Wherever a literal that `StringLiteral` writes comes next, `Next` reads it whole, as one string
-- token in double quotes, and leaves what follows. The token's value is the text that was written
-- exactly when that text has no newline, carriage return or tab.
pub next-string_literal :
    (u : Unicode) (l : Lexer) (s r : Text)
    → l.rest ≡ string_literal s ++ r
    → ((next u l).1.kind ≡ TokenKind.string)
      × (((next u l).1.value ≡ s) ↔ (has_no_control s ≡ true))
      × ((next u l).1.quote ≡ b'"')
      × ((next u l).0.rest ≡ r)
next-string_literal u l s r h =
    let (kind, value, quote, rest) = next-string_literal_parts u l s r h in
    (kind, rw value (read_back-eq_self s), quote, rest)
