-- ===== src/Base/Int.antt =====
-- Signed integers, and std::from_chars for `int`, whose least value is -2^31.
use Prim.Native.Nat.{ℕ, zero, suc, ◌-◌, ◌^◌, ◌<◌}
use mathlib.Core.Path.{◌≡◌, refl}
use mathlib.Core.List.{[], ◌∷◌}
use mathlib.Core.Logic.{◌≢◌}
use lundicpp.Base.Lists.{length}
use lundicpp.Base.Find.{All}
use native.Mathlib.Omega.{arith}
use lundicpp.Base.Text.{Bytes}
use lundicpp.Base.Tests.{◌==◌, if◌then◌else◌}
use lundicpp.Base.Decimal.{
  FromChars, parsed, invalid_argument, result_out_of_range, from_chars, decimal, from_chars-decimal,
  decimal-length_pos, decimal-IsDigit, IsDigit,
}

-- `negsuc n` is -(n + 1).
pub data ℤ : Type 0 where
  pos : ℕ → ℤ
  negsuc : ℕ → ℤ

abbrev pub neg : ℕ → ℤ
neg zero = pos zero
neg (suc n) = negsuc n

abbrev pub map_parsed : (ℕ → ℤ) → FromChars ℕ → FromChars ℤ
map_parsed f (parsed n rest) = parsed (f n) rest
map_parsed f invalid_argument = invalid_argument
map_parsed f result_out_of_range = result_out_of_range

unfoldable pub from_chars_int : Bytes → FromChars ℤ
from_chars_int [] = invalid_argument
from_chars_int (c ∷ s) =
    if c == b'-'
    then map_parsed neg (from_chars (2 ^ 31) s)
    else map_parsed pos (from_chars (2 ^ 31 - 1) (c ∷ s))

-- std::to_string of an `int`.
abbrev pub decimal_int : ℤ → Bytes
decimal_int (pos n) = decimal n
decimal_int (negsuc n) = b'-' ∷ decimal (suc n)

-- The values of `int`.
abbrev pub IsInt : ℤ → Type 0
IsInt (pos n) = n < 2 ^ 31
IsInt (negsuc n) = n < 2 ^ 31

starts_no_minus :
    (s : Bytes) → 0 < length s → All IsDigit s → (c : ℕ) × (t : Bytes) × (s ≡ c ∷ t) × (c ≢ b'-')
starts_no_minus [] h d = absurd (omega arith)
starts_no_minus (c ∷ t) h (p, d) = (c, t, refl, omega arith)

from_chars_int-digits :
    (s : Bytes) (n c : ℕ) (t : Bytes)
    → from_chars (2 ^ 31 - 1) s ≡ parsed n []
    → s ≡ c ∷ t
    → c ≢ b'-'
    → from_chars_int s ≡ parsed (pos n) []
unfolding from_chars_int
from_chars_int-digits s n c t e q h =
    let e' : from_chars (2 ^ 31 - 1) (c ∷ t) ≡ parsed n [] = rw q at e in rw q (ground (arith, e'))

-- The decimal text of an `int` is read back whole.
pub from_chars_int-decimal : (z : ℤ) → IsInt z → from_chars_int (decimal_int z) ≡ parsed z []
from_chars_int-decimal (pos n) h =
    let (c, t, e, ne) = starts_no_minus (decimal n) (decimal-length_pos n) (decimal-IsDigit n) in
    from_chars_int-digits (decimal n) n c t (from_chars-decimal (2 ^ 31 - 1) n (omega arith)) e ne
from_chars_int-decimal (negsuc n) h =
    unfold from_chars_int in rw (from_chars-decimal (2 ^ 31) (suc n) (omega arith))
