-- ===== src/Spl/Lexer/Reads.antt =====
-- What one call of `Next` of internal/spl/lexer/lexer.go reads.
use quetzalog.Base.{
  ℕ, Bool, true, false, [], ◌∷◌, ◌++◌, ◌≡◌, refl, ap, arith, Text, length, reverse_onto,
}
use quetzalog.Spl.Lexer.{Lexer, Token, scan_string, scan_number, scan_name, scan_op, next_at}
use quetzalog.Spl.Lexer.Scan.{name_span, number_span, string_body, scan_operator}
use quetzalog.Spl.Unicode.{Unicode}

pub name_span-append : (u : Unicode) (r : Text) → (name_span u r).0 ++ (name_span u r).1 ≡ r
unfolding name_span
name_span-append u [] = refl
name_span-append u (c ∷ r) = ground (arith, name_span-append u r)

pub number_span-append :
    (sign : Bool) (r : Text) → (number_span sign r).0 ++ (number_span sign r).1 ≡ r
unfolding number_span
number_span-append sign [] = refl
number_span-append true (c ∷ r) = ap (◌∷◌ c) (number_span-append false r)
number_span-append false (c ∷ r) =
    ground (arith, number_span-append true r, number_span-append false r)

pub string_body-append :
    (quote : ℕ) (escaped : Bool) (r : Text)
    → (string_body quote escaped r).1 ++ (string_body quote escaped r).2 ≡ r
unfolding string_body
string_body-append quote escaped [] = refl
string_body-append quote true (c ∷ r) = ap (◌∷◌ c) (string_body-append quote false r)
string_body-append quote false (c ∷ r) =
    ground (arith, string_body-append quote true r, string_body-append quote false r)

pub scan_operator-append : (r : Text) → (scan_operator r).1 ++ (scan_operator r).2 ≡ r
unfolding scan_operator
scan_operator-append [] = refl
scan_operator-append (c ∷ []) = refl
scan_operator-append (c ∷ d ∷ r) = ground arith

-- `p` holds the token that stands at the scanner `l`, and the scanner behind it.
pub record IsReadAt (l : Lexer) (p : Lexer × Token) : Type 0 where
  pub splits : l.rest ≡ p.1.raw ++ p.0.rest
  pub moves : p.0.before ≡ reverse_onto p.1.raw l.before
  pub placed : p.1.pos ≡ length l.before

scan_string-IsReadAt :
    (l : Lexer) (c : ℕ) (r : Text) → l.rest ≡ c ∷ r → IsReadAt l (scan_string l c r)
unfolding scan_string
scan_string-IsReadAt l c r h = ground (arith, string_body-append c false r)

scan_number-IsReadAt : (l : Lexer) → IsReadAt l (scan_number l)
unfolding scan_number
scan_number-IsReadAt l = ground (arith, number_span-append false l.rest)

scan_name-IsReadAt : (u : Unicode) (l : Lexer) → IsReadAt l (scan_name u l)
unfolding scan_name
scan_name-IsReadAt u l = ground (arith, name_span-append u l.rest)

scan_op-IsReadAt : (l : Lexer) → IsReadAt l (scan_op l)
unfolding scan_op
scan_op-IsReadAt l = ground (arith, scan_operator-append l.rest)

pub next_at-IsReadAt :
    (u : Unicode) (l : Lexer) (r : Text) → l.rest ≡ r → IsReadAt l (next_at u l r)
unfolding next_at
next_at-IsReadAt u l [] h = ground arith
next_at-IsReadAt u l (c ∷ r) h = ground (
  arith,
  scan_string-IsReadAt l c r h,
  scan_number-IsReadAt l,
  scan_name-IsReadAt u l,
  scan_op-IsReadAt l,
)
