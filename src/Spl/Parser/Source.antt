-- ===== src/Spl/Parser/Source.antt =====
-- `rawSlice` of internal/spl/parser/parser.go. The input is a Go string, of UTF-8 bytes, and the
-- positions of tokens count runes.
use quetzalog.Base.{
  ℕ, zero, suc, ◌+◌, ◌-◌, ◌/◌, ◌%◌, Bool, ◌&&◌, ◌||◌, List, [], ◌∷◌, ◌++◌, reverse, Text, length,
  take, drop, ltb, leb, ◌==◌, if◌then◌else◌,
}
use quetzalog.Spl.Lexer.{Token}

-- The UTF-8 bytes of a rune, and of a text.
unfoldable pub utf8_rune : ℕ → List ℕ
utf8_rune c =
    if ltb c 0x80
    then c ∷ []
    else if ltb c 0x800
    then (0xc0 + c / 64) ∷ (0x80 + c % 64) ∷ []
    else if ltb c 0x10000
    then (0xe0 + c / 4096) ∷ (0x80 + c / 64 % 64) ∷ (0x80 + c % 64) ∷ []
    else (0xf0 + c / 262144) ∷ (0x80 + c / 4096 % 64) ∷ (0x80 + c / 64 % 64) ∷ (0x80 + c % 64) ∷ []

unfoldable pub utf8 : Text → List ℕ
unfolding utf8_rune
utf8 [] = []
utf8 (c ∷ s) = utf8_rune c ++ utf8 s

abbrev ascii_space : ℕ → Bool
ascii_space a = (leb 0x09 a && leb a 0x0d) || a == 0x20

abbrev two_byte_space : ℕ → ℕ → Bool
two_byte_space a b = a == 0xc2 && (b == 0x85 || b == 0xa0)

abbrev three_byte_space : ℕ → ℕ → ℕ → Bool
three_byte_space a b c =
    (a == 0xe1 && b == 0x9a && c == 0x80)
    || (a == 0xe2 && b == 0x80 && (leb 0x80 c && leb c 0x8a || c == 0xa8 || c == 0xa9 || c == 0xaf))
    || (a == 0xe2 && b == 0x81 && c == 0x9f)
    || (a == 0xe3 && b == 0x80 && c == 0x80)

-- How many bytes the space at the front of the bytes takes, 0 for none.
unfoldable pub space_front : List ℕ → ℕ
space_front [] = 0
space_front (a ∷ []) = if ascii_space a then 1 else 0
space_front (a ∷ b ∷ []) = if ascii_space a then 1 else if two_byte_space a b then 2 else 0
space_front (a ∷ b ∷ c ∷ _) =
    if ascii_space a
    then 1
    else if two_byte_space a b
    then 2
    else if three_byte_space a b c
    then 3
    else 0

-- The same at the end, over the bytes in reverse.
unfoldable pub space_back : List ℕ → ℕ
space_back [] = 0
space_back (a ∷ []) = if ascii_space a then 1 else 0
space_back (a ∷ b ∷ []) = if ascii_space a then 1 else if two_byte_space b a then 2 else 0
space_back (a ∷ b ∷ c ∷ _) =
    if ascii_space a
    then 1
    else if two_byte_space b a
    then 2
    else if three_byte_space c b a
    then 3
    else 0

-- Drops spaces off the front, as long as the measure finds one; the first argument counts the bytes
-- of the last space found that are still to be dropped.
trim_front : (List ℕ → ℕ) → ℕ → List ℕ → List ℕ
trim_front space n [] = []
trim_front space (suc n) (b ∷ bs) = trim_front space n bs
trim_front space zero (b ∷ bs) = elim (space (b ∷ bs)) [
  | zero ↦ b ∷ bs
  | suc n ↦ trim_front space n bs
]

-- `strings.TrimSpace`.
unfoldable pub trim_space : List ℕ → List ℕ
unfolding trim_front space_front space_back
trim_space bs = reverse (trim_front space_back 0 (reverse (trim_front space_front 0 bs)))

-- `last.Pos + len(last.Raw)`; `len` counts bytes.
unfoldable pub end_of : List Token → ℕ
unfolding utf8
end_of [] = 0
end_of (t ∷ []) = t.pos + length (utf8 t.raw)
end_of (t ∷ s ∷ ts) = end_of (s ∷ ts)

-- The bytes of the input from the first token's position to `end_of`.
unfoldable pub raw_slice : List ℕ → List Token → List ℕ
unfolding trim_space end_of
raw_slice input [] = []
raw_slice input (t ∷ ts) =
    if leb (length input) t.pos
    then []
    else trim_space (take (end_of (t ∷ ts) - t.pos) (drop t.pos input))
