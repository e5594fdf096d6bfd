-- ===== src/Spl/Lexer.antt =====
-- internal/spl/lexer/lexer.go. The scanner's `input` and `pos` are held as the runes before `pos`,
-- last first, and the runes from `pos` on. A scan returns the runes that it reads, which Go slices
-- out of `input` as `input[start:pos]`, and what follows them.
pub mod Scan
pub mod Reads
pub mod Progress
pub mod Literals
pub mod Rounds
pub mod Tokens
use quetzalog.Base.{
  ℕ, zero, suc, ◌+◌, Bool, true, false, ◌&&◌, ◌||◌, not, List, [], ◌∷◌, ◌++◌, Text, length, codes,
  reverse_onto, equal, ◌==◌, if◌then◌else◌, Outcome, ok, err, out_of_fuel, ◌>>=◌,
}
use quetzalog.Spl.Unicode.{Unicode, is_space, equal_fold}
use Scan.{
  is_digit, is_name_start, name_span, number_span, string_body, scan_operator, prev_allows_negative,
}

pub data TokenKind : Type 0 where
  name string number op lparen rparen pipe comma star eof : TokenKind

unfoldable pub is_name : TokenKind → Bool
is_name TokenKind.name = true
is_name _ = false

unfoldable pub is_op : TokenKind → Bool
is_op TokenKind.op = true
is_op _ = false

unfoldable pub is_eof : TokenKind → Bool
is_eof TokenKind.eof = true
is_eof _ = false

-- `quote` is 0 for a token that is no string.
pub record Token : Type 0 where
  pub kind : TokenKind
  pub value : Text
  pub raw : Text
  pub quote : ℕ
  pub pos : ℕ

-- `Token.IsKeyword`.
unfoldable pub is_keyword : Unicode → Token → Text → Bool
unfolding is_name
is_keyword u t word = is_name t.kind && equal_fold u t.value word

pub record Lexer : Type 0 where
  pub before : Text
  pub rest : Text

abbrev pub new_lexer : Text → Lexer
new_lexer input = record { before = []; rest = input }

unfoldable pub skip_from : Text → Text → Lexer
skip_from before [] = record { before = before; rest = [] }
skip_from before (c ∷ r) =
    let further = skip_from (c ∷ before) r in
    if is_space c then further else record { before = before; rest = c ∷ r }

unfoldable pub skip_space : Lexer → Lexer
skip_space l = skip_from l.before l.rest

-- The token over `raw`, which the scanner has read from `l`, and the scanner behind it.
abbrev pub emit : Lexer → TokenKind → Text → Text → ℕ → Text → Lexer × Token
emit l kind value raw quote rest = (
  record { before = reverse_onto raw l.before; rest = rest },
  record { kind = kind; value = value; raw = raw; quote = quote; pos = length l.before },
)

abbrev single : Lexer → TokenKind → ℕ → Text → Lexer × Token
single l kind c r = emit l kind (c ∷ []) (c ∷ []) 0 r

unfoldable pub scan_string : Lexer → ℕ → Text → Lexer × Token
scan_string l quote r =
    let (value, raw, rest) = string_body quote false r in
    emit l TokenKind.string value (quote ∷ raw) quote rest

unfoldable pub scan_number : Lexer → Lexer × Token
scan_number l = let (raw, rest) = number_span false l.rest in emit l TokenKind.number raw raw 0 rest

unfoldable pub scan_name : Unicode → Lexer → Lexer × Token
scan_name u l = let (raw, rest) = name_span u l.rest in emit l TokenKind.name raw raw 0 rest

unfoldable pub scan_op : Lexer → Lexer × Token
scan_op l = let (value, raw, rest) = scan_operator l.rest in emit l TokenKind.op value raw 0 rest

-- The test `isDigit(input[pos+1]) || input[pos+1] == '.'`, false at the end of the input.
unfoldable pub negative_ahead : Text → Bool
unfolding is_digit
negative_ahead [] = false
negative_ahead (d ∷ _) = is_digit d || d == b'.'

-- `Next` behind `skipSpace`, on the runes left.
unfoldable pub next_at : Unicode → Lexer → Text → Lexer × Token
next_at u l [] = emit l TokenKind.eof [] [] 0 []
next_at u l (c ∷ r) =
    if c == b'|'
    then single l TokenKind.pipe c r
    else if c == b','
    then single l TokenKind.comma c r
    else if c == b'('
    then single l TokenKind.lparen c r
    else if c == b')'
    then single l TokenKind.rparen c r
    else if c == b'*'
    then single l TokenKind.star c r
    else if c == b'"' || c == 39
    then scan_string l c r
    else if is_digit c
    then scan_number l
    else if c == b'-' && negative_ahead r && prev_allows_negative l.before
    then scan_number l
    else if is_name_start u c
    then scan_name u l
    else scan_op l

unfoldable pub next : Unicode → Lexer → Lexer × Token
next u l = let s = skip_space l in next_at u s s.rest

-- `fmt.Errorf("unexpected character %q at position %d", t.Raw, t.Pos)`.
pub record LexError : Type 0 where
  pub raw : Text
  pub pos : ℕ

-- The loop of `Tokenize`, with a bound on its rounds.
unfoldable pub tokens_from : ℕ → Unicode → Lexer → Outcome LexError (List Token)
tokens_from zero u l = out_of_fuel
tokens_from (suc fuel) u l =
    let (l', t) = next u l in
    let more = tokens_from fuel u l' >>= λ ts. ok (t ∷ ts) in
    if is_eof t.kind
    then ok (t ∷ [])
    else if is_op t.kind && equal t.value []
    then err (record { raw = t.raw; pos = t.pos })
    else more

unfoldable pub tokenize : ℕ → Unicode → Text → Outcome LexError (List Token)
tokenize fuel u input = tokens_from fuel u (new_lexer input)
