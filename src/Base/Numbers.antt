-- ===== src/Base/Numbers.antt =====
-- Go's `int`, and `strconv.Atoi` on it.
use Prim.Native.Nat.{ℕ, zero, suc, ◌+◌, ◌-◌, ◌*◌}
use mathlib.Core.Bool.{Bool, true, false, ◌&&◌}
use mathlib.Core.List.{[], ◌∷◌}
use mathlib.Core.Option.{Option, none, some}
use quetzalog.Base.Tests.{leb, ◌==◌, if◌then◌else◌, Text}

-- `negsuc n` is -(n + 1).
pub data ℤ : Type 0 where
  pos : ℕ → ℤ
  negsuc : ℕ → ℤ

abbrev pub max_int : ℕ
max_int = 9223372036854775807

-- The value of a text of decimal digits, behind the digits read so far.
unfoldable pub digits_value : ℕ → Text → Option ℕ
digits_value n [] = some n
digits_value n (c ∷ s) =
    let more = digits_value (n * 10 + (c - b'0')) s in
    if leb b'0' c && leb c b'9' then more else none

unfoldable pub unsigned : Text → Option ℕ
unfolding digits_value
unsigned [] = none
unsigned (c ∷ s) = digits_value 0 (c ∷ s)

abbrev negated : ℕ → ℤ
negated zero = pos 0
negated (suc n) = negsuc n

-- The number, held to the range of an `int`, and whether there is no error. Text that is no number
-- gives 0.
abbrev read_pos : Option ℕ → ℤ × Bool
read_pos none = (pos 0, false)
read_pos (some n) = if leb n max_int then (pos n, true) else (pos max_int, false)

abbrev read_neg : Option ℕ → ℤ × Bool
read_neg none = (pos 0, false)
read_neg (some n) = if leb n (suc max_int) then (negated n, true) else (negsuc max_int, false)

unfoldable pub atoi : Text → ℤ × Bool
unfolding unsigned
atoi [] = (pos 0, false)
atoi (c ∷ s) =
    if c == b'-'
    then read_neg (unsigned s)
    else if c == b'+'
    then read_pos (unsigned s)
    else read_pos (unsigned (c ∷ s))
