-- ===== src/Spl/Unicode.antt =====
-- The package `unicode` and the rune maps of `strings`, as the SPL packages use them. The tables
-- themselves are Go's: they are a parameter, with their documented values on ASCII.
use quetzalog.Base.{
  [], ◌∷◌, reverse, ℕ, ◌+◌, ◌-◌, ◌<◌, Bool, ◌&&◌, ◌||◌, ◌≡◌, refl, map, Text, leb, ◌==◌, equal,
  if◌then◌else◌,
}

abbrev within : ℕ → ℕ → ℕ → Bool
within lo hi c = leb lo c && leb c hi

-- `unicode.IsSpace`.
unfoldable pub is_space : ℕ → Bool
is_space c =
    within 0x09 0x0d c
    || c == b' '
    || c == 0x85
    || c == 0xa0
    || c == 0x1680
    || within 0x2000 0x200a c
    || c == 0x2028
    || c == 0x2029
    || c == 0x202f
    || c == 0x205f
    || c == 0x3000

unfoldable pub ascii_upper : ℕ → Bool
ascii_upper c = within b'A' b'Z' c

unfoldable pub ascii_letter : ℕ → Bool
unfolding ascii_upper
ascii_letter c = within b'a' b'z' c || ascii_upper c

unfoldable pub ascii_digit : ℕ → Bool
ascii_digit c = within b'0' b'9' c

unfoldable pub ascii_lower : ℕ → ℕ
unfolding ascii_upper
ascii_lower c = if ascii_upper c then c + 32 else c

unfoldable pub ascii_to_upper : ℕ → ℕ
ascii_to_upper c = if within b'a' b'z' c then c - 32 else c

-- `fold` names one rune of each orbit of Unicode's simple case folding.
pub record Unicode : Type 0 where
  pub is_letter : ℕ → Bool
  pub is_digit : ℕ → Bool
  pub to_lower : ℕ → ℕ
  pub to_upper : ℕ → ℕ
  pub fold : ℕ → ℕ

-- The documented values on ASCII.
pub record IsStandard (u : Unicode) : Type 0 where
  pub letters : (c : ℕ) → c < 128 → u.is_letter c ≡ ascii_letter c
  pub digits : (c : ℕ) → c < 128 → u.is_digit c ≡ ascii_digit c
  pub lowers : (c : ℕ) → c < 128 → u.to_lower c ≡ ascii_lower c
  pub uppers : (c : ℕ) → c < 128 → u.to_upper c ≡ ascii_to_upper c
  pub folds : (c : ℕ) → c < 128 → u.fold c ≡ ascii_lower c

-- The tables of a program that sees ASCII alone.
unfoldable pub ascii : Unicode
ascii = record {
  is_letter = ascii_letter;
  is_digit = ascii_digit;
  to_lower = ascii_lower;
  to_upper = ascii_to_upper;
  fold = ascii_lower;
}

pub ascii-IsStandard : IsStandard ascii
unfolding ascii
ascii-IsStandard = record {
  letters = λ c h. refl;
  digits = λ c h. refl;
  lowers = λ c h. refl;
  uppers = λ c h. refl;
  folds = λ c h. refl;
}

-- `strings.ToLower`, `strings.ToUpper` and `strings.EqualFold`.
unfoldable pub to_lower : Unicode → Text → Text
to_lower u = map u.to_lower

unfoldable pub to_upper : Unicode → Text → Text
to_upper u = map u.to_upper

unfoldable pub equal_fold : Unicode → Text → Text → Bool
equal_fold u s t = equal (map u.fold s) (map u.fold t)

-- `strings.TrimSpace`.
unfoldable pub drop_space : Text → Text
drop_space [] = []
drop_space (c ∷ s) = let more = drop_space s in if is_space c then more else c ∷ s

unfoldable pub trim : Text → Text
unfolding drop_space
trim s = reverse (drop_space (reverse (drop_space s)))
