-- ===== src/Spl/Lexer/Progress.antt =====
-- When a call of `Next` moves on, and when `Tokenize` returns. A `-` that opens a negative number
-- is handed to `scanNumber`, whose loop stops at the `-` and reads nothing.
use quetzalog.Base.{
  ℕ, ◌<◌, Bool, true, false, ◌&&◌, [], ◌∷◌, ◌++◌, ◌≡◌, refl, ap, inl, inr, ◌⊎◌, arith, Text, length,
  reverse_onto, Bool-cases, ◌==◌,
}
use quetzalog.Spl.Lexer.{
  Lexer, Token, TokenKind, scan_string, scan_number, scan_name, scan_op, negative_ahead, next_at,
  skip_space, skip_from, is_eof,
}
use quetzalog.Spl.Lexer.Scan.{
  name_span, number_step, number_span, scan_operator, prev_allows_negative, is_digit, is_name_start,
}
use quetzalog.Spl.Unicode.{Unicode, is_space}

-- The test of `Next` for a negative number, on the runes before and from `pos`.
unfoldable pub opens_negative : Text → Text → Bool
opens_negative before [] = false
opens_negative before (c ∷ r) = c == b'-' && negative_ahead r && prev_allows_negative before

abbrev pub AllSpace : Text → Type 0
AllSpace [] = Unit
AllSpace (c ∷ r) = (is_space c ≡ true) × AllSpace r

-- `s` is the scanner `l` behind the spaces `gap`.
pub record IsSkipped (l s : Lexer) (gap : Text) : Type 0 where
  pub spaces : AllSpace gap
  pub splits : l.rest ≡ gap ++ s.rest
  pub moves : s.before ≡ reverse_onto gap l.before

skip_from-IsSkipped :
    (before r : Text)
    → (gap : Text) × IsSkipped (record { before = before; rest = r }) (skip_from before r) gap
unfolding skip_from
skip_from-IsSkipped before [] = ([], record { spaces = tt; splits = refl; moves = refl })
skip_from-IsSkipped before (c ∷ r) = elim (Bool-cases (is_space c)) [
  | inl space ↦
      let (gap, s) = skip_from-IsSkipped (c ∷ before) r in
      rw space (
        c ∷ gap,
        record { spaces = (space, s.spaces); splits = ap (◌∷◌ c) s.splits; moves = s.moves },
      )
  | inr other ↦ rw other ([], record { spaces = tt; splits = refl; moves = refl })
]

-- Behind `skipSpace` there is no space to skip.
skip_from_idem : (before r : Text) → skip_space (skip_from before r) ≡ skip_from before r
unfolding skip_from skip_space
skip_from_idem before [] = refl
skip_from_idem before (c ∷ r) = elim (Bool-cases (is_space c)) [
  | inl space ↦ rw space (skip_from_idem (c ∷ before) r)
  | inr other ↦ rw other (rw other)
]

pub skip_space_idem : (l : Lexer) → skip_space (skip_space l) ≡ skip_space l
unfolding skip_space
skip_space_idem l = skip_from_idem l.before l.rest

pub skip_space-IsSkipped : (l : Lexer) → (gap : Text) × IsSkipped l (skip_space l) gap
unfolding skip_space
skip_space-IsSkipped l = skip_from-IsSkipped l.before l.rest

-- At a negative number `Next` hands out an empty token and stays where it is.
pub next_at_negative :
    (u : Unicode) (l : Lexer) (r : Text)
    → l.rest ≡ r
    → opens_negative l.before r ≡ true
    → ((next_at u l r).0 ≡ l) × ((next_at u l r).1.kind ≡ TokenKind.number)
unfolding next_at opens_negative is_digit scan_number number_span number_step
next_at_negative u l [] h e = ground arith
next_at_negative u l (c ∷ r) h e = ground arith

-- Anywhere else it reads at least one rune, or has met the end of the input.
name_span_pos :
    (u : Unicode) (c : ℕ) (r : Text) → is_name_start u c ≡ true → 0 < length (name_span u (c ∷ r)).0
unfolding name_span is_name_start
name_span_pos u c r h = ground arith

scan_operator_pos : (c : ℕ) (r : Text) → 0 < length (scan_operator (c ∷ r)).1
unfolding scan_operator
scan_operator_pos c [] = omega arith
scan_operator_pos c (d ∷ r) = ground arith

scan_digit_pos : (c : ℕ) (r : Text) → is_digit c ≡ true → 0 < length (number_span false (c ∷ r)).0
unfolding number_span number_step
scan_digit_pos c r h = ground arith

abbrev pub Advances : Token → Type 0
Advances t = (is_eof t.kind ≡ true) ⊎ (0 < length t.raw)

pub next_at-Advances :
    (u : Unicode) (l : Lexer) (r : Text)
    → l.rest ≡ r
    → opens_negative l.before r ≡ false
    → Advances (next_at u l r).1
unfolding next_at opens_negative scan_string scan_number scan_name scan_op is_eof
next_at-Advances u l [] h e = inl refl
next_at-Advances u l (c ∷ r) h e =
    ground (arith, name_span_pos u c r, scan_operator_pos c r, scan_digit_pos c r)

-- The token for the end of the input comes there alone.
pub next_at-eof :
    (u : Unicode) (l : Lexer) (r : Text)
    → is_eof (next_at u l r).1.kind ≡ true
    → (r ≡ []) × ((next_at u l r).1.raw ≡ [])
unfolding next_at scan_string scan_number scan_name scan_op is_eof
next_at-eof u l [] h = (refl, refl)
next_at-eof u l (c ∷ r) h = ground arith
