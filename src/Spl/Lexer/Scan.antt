-- ===== src/Spl/Lexer/Scan.antt =====
-- The scans of internal/spl/lexer/lexer.go over the runes from `pos` on: what each one reads, and
-- what it leaves.
use quetzalog.Base.{
  ℕ, Bool, true, false, ◌&&◌, ◌||◌, Option, none, some, [], ◌∷◌, Text, codes, leb, ◌==◌,
  if◌then◌else◌,
}
use quetzalog.Spl.Unicode.{Unicode, is_space}

unfoldable pub is_digit : ℕ → Bool
is_digit c = leb b'0' c && leb c b'9'

unfoldable pub is_name_start : Unicode → ℕ → Bool
is_name_start u c = u.is_letter c || c == b'_' || c == b'@' || c == b':'

unfoldable pub is_name_part : Unicode → ℕ → Bool
is_name_part u c =
    u.is_letter c || u.is_digit c || c == b'_' || c == b'.' || c == b'@' || c == b':' || c == b'-'

abbrev pub push : ℕ → Text × Text → Text × Text
push c (raw, rest) = (c ∷ raw, rest)

-- The loop of `scanName`.
unfoldable pub name_span : Unicode → Text → Text × Text
unfolding is_name_part
name_span u [] = ([], [])
name_span u (c ∷ r) =
    let further = push c (name_span u r) in if is_name_part u c then further else ([], c ∷ r)

digit_ahead : Text → Bool
unfolding is_digit
digit_ahead [] = false
digit_ahead (c ∷ _) = is_digit c

-- Whether a sign and a digit come next.
signed_ahead : Text → Bool
unfolding digit_ahead
signed_ahead [] = false
signed_ahead (c ∷ r) = (c == b'+' || c == b'-') && digit_ahead r

-- One round of the loop of `scanNumber`: whether the rune is read, and whether the next one, the
-- sign of an exponent, is read with it.
unfoldable pub number_step : ℕ → Text → Option Bool
unfolding is_digit digit_ahead signed_ahead
number_step c r =
    if is_digit c || c == b'.'
    then some false
    else if (c == b'e' || c == b'E') && digit_ahead r
    then some false
    else if (c == b'e' || c == b'E') && signed_ahead r
    then some true
    else none

-- The loop; the flag is set behind an `e` whose sign is read with it.
unfoldable pub number_span : Bool → Text → Text × Text
number_span sign [] = ([], [])
number_span true (c ∷ r) = push c (number_span false r)
number_span false (c ∷ r) = elim (number_step c r) [
  | none ↦ ([], c ∷ r)
  | some sign ↦ push c (number_span sign r)
]

pub data StringStep : Type 0 where
  close keep escape : StringStep

-- Only the active quote and a backslash are unescaped.
escapes : ℕ → Text → Bool
escapes quote [] = false
escapes quote (n ∷ _) = n == quote || n == b'\\'

-- One round of the loop of `scanString`: an escape reads this rune and, verbatim, the next.
unfoldable pub string_step : ℕ → ℕ → Text → StringStep
unfolding escapes
string_step quote c r =
    if c == b'\\'
    then (if escapes quote r then escape else keep)
    else if c == quote
    then close
    else keep

-- The loop behind the opening quote: the decoded value, the runes read, and the rest. The flag is
-- set behind the backslash of an escape.
unfoldable pub string_body : ℕ → Bool → Text → Text × Text × Text
string_body quote escaped [] = ([], [], [])
string_body quote true (c ∷ r) =
    let (value, raw, rest) = string_body quote false r in (c ∷ value, c ∷ raw, rest)
string_body quote false (c ∷ r) = elim (string_step quote c r) [
  | close ↦ ([], c ∷ [], r)
  | keep ↦ let (value, raw, rest) = string_body quote false r in (c ∷ value, c ∷ raw, rest)
  | escape ↦ let (value, raw, rest) = string_body quote true r in (value, c ∷ raw, rest)
]

-- `=`, `<`, `>` and the arithmetic operators.
abbrev operator_rune : ℕ → Bool
operator_rune c =
    c == b'='
    || c == b'<'
    || c == b'>'
    || c == b'+'
    || c == b'-'
    || c == b'/'
    || c == b'%'
    || c == b'&'

abbrev one_rune : ℕ → Text → Text × Text × Text
one_rune c r = (if operator_rune c then c ∷ [] else [], c ∷ [], r)

-- `scanOperator`: the value, the runes read, and the rest. A rune that starts no operator has the
-- empty value.
unfoldable pub scan_operator : Text → Text × Text × Text
scan_operator [] = ([], [], [])
scan_operator (c ∷ []) = one_rune c []
scan_operator (c ∷ d ∷ r) =
    if c == b'!' && d == b'='
    then (codes "!=", c ∷ d ∷ [], r)
    else if c == b'<' && d == b'>'
    then (codes "!=", c ∷ d ∷ [], r)
    else if c == b'=' && d == b'='
    then (codes "=", c ∷ d ∷ [], r)
    else if c == b'>' && d == b'='
    then (codes ">=", c ∷ d ∷ [], r)
    else if c == b'<' && d == b'='
    then (codes "<=", c ∷ d ∷ [], r)
    else one_rune c (d ∷ r)

abbrev negative_lead : ℕ → Bool
negative_lead c =
    c == b'('
    || c == b','
    || c == b'|'
    || c == b'='
    || c == b'!'
    || c == b'<'
    || c == b'>'
    || c == b'+'
    || c == b'-'
    || c == b'*'
    || c == b'/'
    || c == b'%'
    || c == b'&'

-- `prevAllowsNegative`, over the runes before `pos`, last first.
unfoldable pub prev_allows_negative : Text → Bool
prev_allows_negative [] = true
prev_allows_negative (c ∷ before) =
    if is_space c then prev_allows_negative before else negative_lead c
