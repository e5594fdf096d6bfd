-- ===== src/Spl/Lexer/Tokens.antt =====
-- What `Tokenize` returns, and for which inputs it returns.
use quetzalog.Base.{
  ℕ, zero, suc, ◌<◌, Bool, true, not, ◌&&◌, [], ◌∷◌, ◌++◌, ◌≡◌, inl, inr, ◌⊎◌, arith, Text, length,
  Bool-cases, ◌==◌, out_of_fuel, Ends, Ends-bind, subst,
}
use quetzalog.Spl.Lexer.{
  Lexer, negative_ahead, skip_space, next, tokens_from, tokenize, is_eof, new_lexer,
}
use quetzalog.Spl.Lexer.Progress.{opens_negative, skip_space-IsSkipped}
use quetzalog.Spl.Unicode.{Unicode}
use quetzalog.Spl.Lexer.Rounds.{
  Spelled, AtNegative, goes_on, MeetsNegative, here, later, next_lem, tokens_from_end,
  tokens_from_more, tokens_from_stop, eof-Spelled, next-Spelled, next_pos, next-shorter,
  tokens_from-MeetsNegative,
}

-- Either the loop comes to a negative number, or it ends within as many rounds as runes are left,
-- and what it returns spells them out.
tokens_from-Ends :
    (fuel : ℕ) (u : Unicode) (l : Lexer)
    → length l.rest < fuel
    → MeetsNegative u l ⊎ Ends (Spelled (length l.before) l.rest) (tokens_from fuel u l)
tokens_from-Ends zero u l h = elim h [ ]
tokens_from-Ends (suc fuel) u l h =
    elim (Bool-cases (opens_negative (skip_space l).before (skip_space l).rest)) [
      | inl negative ↦ inl (here l negative)
      | inr other ↦ elim (Bool-cases (is_eof (next u l).1.kind)) [
        | inl end ↦ inr (rw (tokens_from_end fuel u l end) (eof-Spelled u l end))
        | inr going ↦ elim (Bool-cases (goes_on (next u l).1)) [
          | inr stop ↦ inr (tokens_from_stop fuel u l _ going stop)
          | inl on ↦
              elim (tokens_from-Ends fuel u (next u l).0
                (omega (arith, next_pos u l other going, next-shorter u l))) [
                  | inl m ↦ inl (later l on m)
                  | inr ends ↦ inr (
                      rw (tokens_from_more fuel u l on) (
                        Ends-bind _ _ _ _ ends (λ ts spelled.
                          next-Spelled u l ts going (next_pos u l other going) spelled)))
                ]
        ]
      ]
    ]

-- Whether no `-` of the text stands directly before a digit or a `.`.
unfoldable pub has_no_negative : Text → Bool
has_no_negative [] = true
has_no_negative (c ∷ r) = not (c == b'-' && negative_ahead r) && has_no_negative r

has_no_negative-append :
    (pre r : Text) → has_no_negative (pre ++ r) ≡ true → has_no_negative r ≡ true
unfolding has_no_negative
has_no_negative-append [] r h = h
has_no_negative-append (c ∷ pre) r h = has_no_negative-append pre r (ground arith)

has_no_negative-opens :
    (before r : Text) → has_no_negative r ≡ true → opens_negative before r ≡ true → ⊥
unfolding has_no_negative opens_negative
has_no_negative-opens before [] h a = cc
has_no_negative-opens before (c ∷ r) h a = ground arith

has_no_negative-AtNegative : (l : Lexer) → has_no_negative l.rest ≡ true → AtNegative l → ⊥
has_no_negative-AtNegative l h a =
    let (gap, s) = skip_space-IsSkipped l in
    has_no_negative-opens (skip_space l).before (skip_space l).rest
      (has_no_negative-append gap (skip_space l).rest
        (subst (λ r. has_no_negative r ≡ true) s.splits h))
      a

has_no_negative-MeetsNegative :
    (u : Unicode) (l : Lexer) → has_no_negative l.rest ≡ true → MeetsNegative u l → ⊥
has_no_negative-MeetsNegative u l h (here _ a) = has_no_negative-AtNegative l h a
has_no_negative-MeetsNegative u l h (later _ g m) =
    let n = next_lem u l in
    has_no_negative-MeetsNegative u (next u l).0
      (has_no_negative-append (next u l).1.raw (next u l).0.rest (
        has_no_negative-append n.gap ((next u l).1.raw ++ (next u l).0.rest)
          (subst (λ r. has_no_negative r ≡ true) n.splits h)))
      m

-- For every input, either the loop of `Tokenize` comes to a negative number, or it ends within as
-- many rounds as the input has runes and one more, with an error or with tokens that spell out the
-- input: their raw texts stand at their positions, none of them but the last is empty, and only
-- spaces stand between them.
pub tokenize-Ends :
    (u : Unicode) (input : Text) (fuel : ℕ)
    → length input < fuel
    → MeetsNegative u (new_lexer input) ⊎ Ends (Spelled 0 input) (tokenize fuel u input)
unfolding tokenize
tokenize-Ends u input fuel h = tokens_from-Ends fuel u (new_lexer input) h

-- Where the loop of `Tokenize` comes to a negative number it never returns: no number of rounds is
-- enough.
pub tokenize-MeetsNegative :
    (u : Unicode) (input : Text) (fuel : ℕ)
    → MeetsNegative u (new_lexer input)
    → tokenize fuel u input ≡ out_of_fuel
unfolding tokenize
tokenize-MeetsNegative u input fuel m = tokens_from-MeetsNegative u fuel (new_lexer input) m

-- An input with no `-` directly before a digit or a `.` is always scanned to its end or to an
-- unexpected character, and the tokens spell it out.
tokenize-has_no_negative :
    (u : Unicode) (input : Text) (fuel : ℕ)
    → has_no_negative input ≡ true
    → length input < fuel
    → Ends (Spelled 0 input) (tokenize fuel u input)
tokenize-has_no_negative u input fuel p h = elim (tokenize-Ends u input fuel h) [
  | inl m ↦ absurd (has_no_negative-MeetsNegative u (new_lexer input) p m)
  | inr ends ↦ ends
]
