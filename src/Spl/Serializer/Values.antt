-- ===== src/Spl/Serializer/Values.antt =====
-- Which values of internal/spl/serializer/serializer.go the scanner reads back as they were.
use quetzalog.Base.{
  List, ◌⊎◌, ℕ, Bool, true, false, not, ◌&&◌, ◌||◌, [], ◌∷◌, ◌++◌, ◌≡◌, refl, ap, ◌∙◌, inl, inr,
  Text, ◌==◌, if_rule, ok, arith, Bool-cases, equal, codes,
}
use quetzalog.Spl.Unicode.{Unicode, IsStandard, is_space, ascii_letter, ascii_digit, ascii_upper}
use quetzalog.Spl.Lexer.{Lexer, TokenKind, Token, next, next_at, skip_space, skip_from, scan_name}
use quetzalog.Spl.Lexer.Scan.{is_digit, is_name_start, is_name_part, name_span}
use quetzalog.Spl.Lexer.Literals.{string_literal, has_no_control, next-string_literal}
use quetzalog.Spl.Parser.Expression.{read_value, value_of, cur, advance}
use quetzalog.Spl.Serializer.Text.{
  value_literal, is_numeric, needs_quote, all_ident_safe, is_ident_safe,
}

-- The ASCII runes that start a name.
unfoldable pub is_lead : ℕ → Bool
is_lead c = ascii_letter c || c == b'_' || c == b'@' || c == b':'

-- The ASCII runes of a name.
unfoldable pub is_plain_rune : ℕ → Bool
unfolding is_lead
is_plain_rune c = is_lead c || ascii_digit c || c == b'.' || c == b'-'

unfoldable pub are_plain : Text → Bool
are_plain [] = true
are_plain (c ∷ s) = is_plain_rune c && are_plain s

unfoldable pub is_plain : Text → Bool
unfolding are_plain
is_plain [] = false
is_plain (c ∷ s) = is_lead c && are_plain s

-- No rune of a name comes next.
unfoldable pub ends_name : Unicode → Text → Bool
ends_name u [] = true
ends_name u (c ∷ _) = not (is_name_part u c)

module _ (u : Unicode) (standard : IsStandard u) where
  lead-is_name_start : (c : ℕ) → is_lead c ≡ true → is_name_start u c ≡ true
  unfolding is_lead is_name_start ascii_letter ascii_upper
  lead-is_name_start c h = ground (arith, standard.letters c)

  plain-is_name_part : (c : ℕ) → is_plain_rune c ≡ true → is_name_part u c ≡ true
  unfolding is_lead is_plain_rune is_name_part ascii_letter ascii_digit ascii_upper
  plain-is_name_part c h = ground (arith, standard.letters c, standard.digits c)

  name_span-plain :
      (s r : Text) → are_plain s ≡ true → ends_name u r ≡ true → name_span u (s ++ r) ≡ (s, r)
  unfolding are_plain name_span ends_name
  name_span-plain [] [] h e = refl
  name_span-plain [] (c ∷ r) h e = ground arith
  name_span-plain (c ∷ s) r h e = ground (arith, plain-is_name_part c, name_span-plain s r)

  next_at-lead :
      (l : Lexer) (c : ℕ) (r : Text) → is_lead c ≡ true → next_at u l (c ∷ r) ≡ scan_name u l
  unfolding next_at is_lead is_digit ascii_letter ascii_upper
  next_at-lead l c r h = ground (arith, lead-is_name_start c h)

is_plain-are_plain : (s : Text) → is_plain s ≡ true → are_plain s ≡ true
unfolding is_plain are_plain is_plain_rune
is_plain-are_plain [] h = absurd (cc)
is_plain-are_plain (c ∷ s) h = ground arith

plain-is_ident_safe : (c : ℕ) → is_plain_rune c ≡ true → is_ident_safe c ≡ true
unfolding is_ident_safe is_plain_rune is_lead
plain-is_ident_safe c h = ground arith

plain-all_ident_safe : (s : Text) → are_plain s ≡ true → all_ident_safe s ≡ true
unfolding are_plain all_ident_safe
plain-all_ident_safe [] h = refl
plain-all_ident_safe (c ∷ s) h = ground (arith, plain-is_ident_safe c, plain-all_ident_safe s)

skip_from-lead :
    (before : Text) (c : ℕ) (r : Text)
    → is_lead c ≡ true
    → skip_from before (c ∷ r) ≡ record { before = before; rest = c ∷ r }
unfolding skip_from is_space is_lead ascii_letter ascii_upper
skip_from-lead before c r h = ground arith

module _ (u : Unicode) (standard : IsStandard u) where
  next-plain :
      (l : Lexer) (v r : Text)
      → is_plain v ≡ true
      → ends_name u r ≡ true
      → l.rest ≡ v ++ r
      → ((next u l).1.kind ≡ TokenKind.name) × ((next u l).1.value ≡ v) × ((next u l).0.rest ≡ r)
  unfolding is_plain next skip_space scan_name
  next-plain l [] r h e k = absurd (cc)
  next-plain l (c ∷ v) r h e k =
      let here : is_lead c ≡ true = ground arith in
      let whole : are_plain (c ∷ v) ≡ true = is_plain-are_plain (c ∷ v) h in
      rw
        (
          k,
          skip_from-lead l.before c (v ++ r) here,
          next_at-lead u standard (record { before = l.before; rest = c ∷ (v ++ r) }) c (v ++ r)
              here,
          name_span-plain u standard (c ∷ v) r whole e,
        )
        (refl, refl, refl)

plain-needs_quote : (v : Text) → is_plain v ≡ true → needs_quote v ≡ false
unfolding needs_quote
plain-needs_quote [] h = absurd (unfold is_plain in cc)
plain-needs_quote (c ∷ v) h =
    if_rule (λ b. b ≡ false) (is_numeric (c ∷ v)) false _ (λ _. refl)
      (λ _.
        if_rule (λ b. b ≡ false) (equal (c ∷ v) (codes "*")) false _ (λ _. refl)
          (λ _. ap not (plain-all_ident_safe (c ∷ v) (is_plain-are_plain (c ∷ v) h))))

plain-value_literal : (v : Text) → is_plain v ≡ true → value_literal v ≡ v
unfolding value_literal
plain-value_literal v h = rw (plain-needs_quote v h) refl

quoted-value_literal : (v : Text) → needs_quote v ≡ true → value_literal v ≡ string_literal v
unfolding value_literal
quoted-value_literal v h = rw h refl

-- The values that the serializer writes so that they read back: plain names, and the quoted texts
-- without control characters.
unfoldable pub reads_back : Text → Bool
unfolding is_plain needs_quote has_no_control
reads_back v = is_plain v || (needs_quote v && has_no_control v)

read_value-token :
    (t : Token) (ts : List Token) (v : Text)
    → (t.kind ≡ TokenKind.name) ⊎ (t.kind ≡ TokenKind.string)
    → t.value ≡ v
    → read_value (t ∷ ts) ≡ ok (v, ts)
unfolding read_value value_of cur advance
read_value-token t ts v (inl k) e = rw (k, e) refl
read_value-token t ts v (inr k) e = rw (k, e) refl

-- A value of these, written by the serializer with nothing behind it that goes on like a name, is
-- scanned as one token, and `readValue` reads exactly the value from it.
pub read_value-value_literal :
    (u : Unicode) (l : Lexer) (v r : Text) (ts : List Token)
    → IsStandard u
    → reads_back v ≡ true
    → ends_name u r ≡ true
    → l.rest ≡ value_literal v ++ r
    → ((next u l).0.rest ≡ r) × (read_value ((next u l).1 ∷ ts) ≡ ok (v, ts))
unfolding reads_back
read_value-value_literal u l v r ts standard h e k = elim (Bool-cases (is_plain v)) [
  | inl plain ↦
      let (kind, value, rest) =
        next-plain u standard l v r plain e (k ∙ ap (λ s. s ++ r) (plain-value_literal v plain)) in
      (rest, read_value-token (next u l).1 ts v (inl kind) value)
  | inr other ↦
      let quoted : needs_quote v ≡ true = ground arith in
      let clean : has_no_control v ≡ true = ground arith in
      let (kind, value, _, rest) =
        next-string_literal u l v r (k ∙ ap (λ s. s ++ r) (quoted-value_literal v quoted)) in
      (rest, read_value-token (next u l).1 ts v (inr kind) (value.1 clean))
]
