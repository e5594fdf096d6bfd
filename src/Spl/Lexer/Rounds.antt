-- ===== src/Spl/Lexer/Rounds.antt =====
-- One round of the loop of `Tokenize`: what it reads, and when the loop goes on.
use quetzalog.Base.{
  ℕ, zero, suc, ◌+◌, ◌<◌, ◌≤◌, Bool, true, false, not, ◌&&◌, List, [], ◌∷◌, ◌++◌, ◌≡◌, refl, ap,
  inl, inr, ◌∙◌, arith, Text, length, Bool-cases, ok, out_of_fuel, Ends, ◌>>=◌, equal,
  length-append, length-reverse_onto, append-nil,
}
use quetzalog.Spl.Lexer.{Lexer, Token, skip_space, next, tokens_from, is_eof, is_op}
use quetzalog.Spl.Lexer.Reads.{next_at-IsReadAt}
use quetzalog.Spl.Lexer.Progress.{
  opens_negative, AllSpace, skip_space-IsSkipped, skip_space_idem, next_at-eof, next_at_negative,
  next_at-Advances,
}
use quetzalog.Spl.Unicode.{Unicode}

-- `ts` spells out the text that starts at position `n`: each token's raw text stands at the token's
-- position, with spaces alone in front of it, and the last token is the end of the input.
pub data Spelled : ℕ → Text → List Token → Type 0 where
  last :
      {n : ℕ} {text : Text} (gap : Text) (t : Token)
      → is_eof t.kind ≡ true
      → t.raw ≡ []
      → AllSpace gap
      → t.pos ≡ n + length gap
      → text ≡ gap
      → Spelled n text (t ∷ [])
  more :
      {n : ℕ} {text : Text} {ts : List Token} (gap later : Text) (t : Token)
      → is_eof t.kind ≡ false
      → 0 < length t.raw
      → AllSpace gap
      → t.pos ≡ n + length gap
      → text ≡ gap ++ (t.raw ++ later)
      → Spelled (t.pos + length t.raw) later ts
      → Spelled n text (t ∷ ts)

-- The scanner stands, behind spaces, at a `-` that opens a negative number.
abbrev pub AtNegative : Lexer → Type 0
AtNegative l = opens_negative (skip_space l).before (skip_space l).rest ≡ true

-- The loop of `Tokenize` goes on behind this token.
unfoldable pub goes_on : Token → Bool
goes_on t = not (is_eof t.kind) && not (is_op t.kind && equal t.value [])

-- From `l` the loop of `Tokenize` comes to a negative number.
pub data MeetsNegative (u : Unicode) : Lexer → Type 0 where
  here : (l : Lexer) → AtNegative l → MeetsNegative u l
  later :
      (l : Lexer) → goes_on (next u l).1 ≡ true → MeetsNegative u (next u l).0 → MeetsNegative u l

-- The same scanner with its spaces skipped.
pub AtNegative-skip_space : (l : Lexer) → AtNegative l → AtNegative (skip_space l)
AtNegative-skip_space l h = rw skip_space_idem h

module _ (fuel : ℕ) (u : Unicode) (l : Lexer) where
  pub tokens_from_end :
      is_eof (next u l).1.kind ≡ true → tokens_from (suc fuel) u l ≡ ok ((next u l).1 ∷ [])
  unfolding tokens_from
  tokens_from_end h = rw h

  pub tokens_from_more :
      goes_on (next u l).1 ≡ true
      → tokens_from (suc fuel) u l
        ≡ (tokens_from fuel u (next u l).0 >>= λ ts. ok ((next u l).1 ∷ ts))
  unfolding tokens_from goes_on
  tokens_from_more h = elim (Bool-cases (is_eof (next u l).1.kind)) [
    | inl end ↦ ground arith
    | inr going ↦
        rw going (elim (Bool-cases (is_op (next u l).1.kind && equal (next u l).1.value [])) [
          | inl bad ↦ ground arith
          | inr good ↦ rw good
        ])
  ]

  -- Without a next round the loop has returned.
  pub tokens_from_stop :
      (P : List Token → Type 0)
      → is_eof (next u l).1.kind ≡ false
      → goes_on (next u l).1 ≡ false
      → Ends P (tokens_from (suc fuel) u l)
  unfolding tokens_from goes_on
  tokens_from_stop P e h =
      elim (Bool-cases (is_op (next u l).1.kind && equal (next u l).1.value [])) [
        | inl bad ↦ rw e (rw bad tt)
        | inr good ↦ absurd (ground arith)
      ]

next_negative :
    (u : Unicode) (l : Lexer)
    → AtNegative l
    → ((next u l).0 ≡ skip_space l) × (goes_on (next u l).1 ≡ true)
unfolding next goes_on is_eof is_op
next_negative u l h = ground (arith, next_at_negative u (skip_space l) (skip_space l).rest refl h)

tokens_from-AtNegative :
    (fuel : ℕ) (u : Unicode) (l : Lexer) → AtNegative l → tokens_from fuel u l ≡ out_of_fuel
tokens_from-AtNegative zero u l h = unfold tokens_from in refl
tokens_from-AtNegative (suc fuel) u l h =
    let (stays, on) = next_negative u l h in
    rw (tokens_from_more fuel u l on)
      (rw (stays, tokens_from-AtNegative fuel u (skip_space l) (AtNegative-skip_space l h)))

pub tokens_from-MeetsNegative :
    (u : Unicode) (fuel : ℕ) (l : Lexer) → MeetsNegative u l → tokens_from fuel u l ≡ out_of_fuel
tokens_from-MeetsNegative u fuel l (here _ a) = tokens_from-AtNegative fuel u l a
tokens_from-MeetsNegative u zero l (later _ g m) = unfold tokens_from in refl
tokens_from-MeetsNegative u (suc fuel) l (later _ g m) =
    rw (tokens_from_more fuel u l g) (rw (tokens_from-MeetsNegative u fuel (next u l).0 m))

-- One call of `Next`, its spaces included.
pub record IsNext (u : Unicode) (l : Lexer) : Type 0 where
  pub gap : Text
  pub spaces : AllSpace gap
  pub splits : l.rest ≡ gap ++ ((next u l).1.raw ++ (next u l).0.rest)
  pub placed : (next u l).1.pos ≡ length l.before + length gap
  pub moves : length (next u l).0.before ≡ (next u l).1.pos + length (next u l).1.raw

pub next_lem : (u : Unicode) (l : Lexer) → IsNext u l
unfolding next
next_lem u l =
    let (gap, s) = skip_space-IsSkipped l in
    let r = next_at-IsReadAt u (skip_space l) (skip_space l).rest refl in
    record {
      gap = gap;
      spaces = s.spaces;
      splits = s.splits ∙ ap (◌++◌ gap) r.splits;
      placed = omega (arith, ap length s.moves, r.placed, length-reverse_onto gap l.before);
      moves = omega (
        arith,
        ap length r.moves,
        r.placed,
        length-reverse_onto (next u l).1.raw (skip_space l).before,
      );
    }

-- The end of the input is the last token.
pub eof-Spelled :
    (u : Unicode) (l : Lexer)
    → is_eof (next u l).1.kind ≡ true
    → Spelled (length l.before) l.rest ((next u l).1 ∷ [])
eof-Spelled u l end =
    let (gap, s) = skip_space-IsSkipped l in
    let nothing = next_at-eof u (skip_space l) (skip_space l).rest (unfold next in end) in
    let whole : l.rest ≡ gap = s.splits ∙ ap (◌++◌ gap) nothing.0 ∙ append-nil gap in
    let r = next_at-IsReadAt u (skip_space l) (skip_space l).rest refl in
    let at : (next u l).1.pos ≡ length l.before + length gap =
      unfold next in omega (arith, ap length s.moves, r.placed, length-reverse_onto gap l.before) in
    last gap (next u l).1 end (unfold next in nothing.1) s.spaces at whole

pub next-Spelled :
    (u : Unicode) (l : Lexer) (ts : List Token)
    → is_eof (next u l).1.kind ≡ false
    → 0 < length (next u l).1.raw
    → Spelled (length (next u l).0.before) (next u l).0.rest ts
    → Spelled (length l.before) l.rest ((next u l).1 ∷ ts)
next-Spelled u l ts going pos h =
    let n = next_lem u l in
    more n.gap (next u l).0.rest (next u l).1 going pos n.spaces n.placed n.splits
      (rw (← n.moves) h)

pub next_pos :
    (u : Unicode) (l : Lexer)
    → opens_negative (skip_space l).before (skip_space l).rest ≡ false
    → is_eof (next u l).1.kind ≡ false
    → 0 < length (next u l).1.raw
unfolding next
next_pos u l other going = elim (next_at-Advances u (skip_space l) (skip_space l).rest refl other) [
  | inl end ↦ absurd (ground arith)
  | inr pos ↦ pos
]

pub next-shorter :
    (u : Unicode) (l : Lexer) → length (next u l).1.raw + length (next u l).0.rest ≤ length l.rest
next-shorter u l =
    let n = next_lem u l in
    omega (
      arith,
      ap length n.splits,
      length-append n.gap ((next u l).1.raw ++ (next u l).0.rest),
      length-append (next u l).1.raw (next u l).0.rest,
    )
