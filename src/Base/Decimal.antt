-- ===== src/Base/Decimal.antt =====
-- Decimal text: std::to_string of a number that is not negative, and std::from_chars in base 10.
use mathlib.Core.Bool.{Bool, ◌&&◌}
use mathlib.Core.WellFounded
use mathlib.Core.WellFounded.{Acc, Acc-prop}
use native.Mathlib.Decide.{dec_lt}
use Prim.Native.Nat.{ℕ, zero, suc, ◌+◌, ◌-◌, ◌*◌, ◌/◌, ◌%◌, ◌^◌, ◌≤◌, ◌<◌}
use native.Mathlib.Nat.{pow-suc}
use mathlib.Core.Path.{◌≡◌, refl, ap}
use mathlib.Core.List.{append-nil, append_assoc, [], ◌∷◌, ◌++◌}
use native.Mathlib.Omega.{arith}
use lundicpp.Base.Order.{lt_wf}
use lundicpp.Base.Lists.{length}
use lundicpp.Base.Tests.{◌==◌, leb, if◌then◌else◌}
use lundicpp.Base.Text.{Bytes}
use lundicpp.Base.Find.{All}

-- `b` is one of `0` to `9`.
abbrev pub is_digit : ℕ → Bool
is_digit b = leb b'0' b && leb b b'9'

pub tenth_lt : {n : ℕ} → 0 < n → n / 10 < n
tenth_lt h = omega arith

abbrev pub last_digit : ℕ → ℕ
last_digit n = b'0' + n % 10

-- The digits of a positive `n` before `out`, and nothing for 0. The number is fuel enough.
digits_fuel : ℕ → ℕ → Bytes → Bytes
digits_fuel zero n out = out
digits_fuel (suc fuel) n out =
    let front = digits_fuel fuel (n / 10) (last_digit n ∷ out) in if n == 0 then out else front

unfoldable pub digits : ℕ → Bytes → Bytes
unfolding digits_fuel
digits n out = digits_fuel n n out

-- How a number is printed by std::to_string.
unfoldable pub decimal : ℕ → Bytes
unfolding digits
decimal n = if n == 0 then b'0' ∷ [] else digits n []

fuel_enough : (f g n : ℕ) (out : Bytes) → n ≤ f → n ≤ g → digits_fuel f n out ≡ digits_fuel g n out
unfolding digits_fuel
fuel_enough zero zero n out p q = refl
fuel_enough zero (suc g) n out p q = ground arith
fuel_enough (suc f) zero n out p q = ground arith
fuel_enough (suc f) (suc g) n out p q =
    ground (arith, fuel_enough f g (n / 10) (last_digit n ∷ out))

pub digits_of_pos :
    (n : ℕ) (out : Bytes) → 0 < n → digits n out ≡ digits (n / 10) (last_digit n ∷ out)
unfolding digits
digits_of_pos zero out p = absurd (omega arith)
digits_of_pos (suc n) out p =
    ground (arith, fuel_enough n (suc n / 10) (suc n / 10) (last_digit (suc n) ∷ out))

pub digits-zero : (n : ℕ) (out : Bytes) → ¬ (0 < n) → digits n out ≡ out
unfolding digits
digits-zero zero out p = refl
digits-zero (suc n) out p = absurd (omega arith)

pub digits-append : (n : ℕ) (out : Bytes) → digits n out ≡ digits n [] ++ out
digits-append n =
    WellFounded.induction lt_wf {C = λ m. (out : Bytes) → digits m out ≡ digits m [] ++ out} n
      λ m ih out. elim (dec_lt 0 m) [
        | yes p ↦
            let c = b'0' + m % 10 in
            rw (
              digits_of_pos m out p,
              digits_of_pos m [] p,
              ih (m / 10) (tenth_lt p) (c ∷ out),
              ih (m / 10) (tenth_lt p) (c ∷ []),
              append_assoc,
            )
        | no p ↦ rw (digits-zero m out p, digits-zero m [] p)
      ]

-- The number that digits spell behind `n`.
abbrev pub value : ℕ → Bytes → ℕ
value n [] = n
value n (c ∷ s) = value (n * 10 + (c - b'0')) s

abbrev pub IsDigit : ℕ → Type 0
IsDigit c = (b'0' ≤ c) × (c ≤ b'9')

pub value-digits : (n : ℕ) (out : Bytes) → value 0 (digits n out) ≡ value n out
value-digits n =
    WellFounded.induction lt_wf {C = λ m. (out : Bytes) → value 0 (digits m out) ≡ value m out} n
      λ m ih out. elim (dec_lt 0 m) [
        | yes p ↦
            rw (digits_of_pos m out p, ih (m / 10) (tenth_lt p) ((b'0' + m % 10) ∷ out))
              (ap (λ k. value k out) (omega arith))
        | no p ↦ rw (digits-zero m out p) (ap (λ k. value k out) (omega arith))
      ]

pub digits-IsDigit : (n : ℕ) (out : Bytes) → All IsDigit out → All IsDigit (digits n out)
digits-IsDigit n =
    WellFounded.induction lt_wf
      {C = λ m. (out : Bytes) → All IsDigit out → All IsDigit (digits m out)} n
      λ m ih out h. elim (dec_lt 0 m) [
        | yes p ↦
            rw (digits_of_pos m out p)
              (ih (m / 10) (tenth_lt p) ((b'0' + m % 10) ∷ out) (omega arith, h))
        | no p ↦ rw (digits-zero m out p) h
      ]

-- `n < 10 ^ k` has at most `k` digits.
pub length-digits : (k n : ℕ) (out : Bytes) → n < 10 ^ k → length (digits n out) ≤ k + length out
length-digits zero n out h =
    let done : ¬ (0 < n) = omega arith in rw (digits-zero n out done) (omega arith)
length-digits (suc k) n out h = elim (dec_lt 0 n) [
  | yes p ↦ rw (digits_of_pos n out p) (
      omega (arith, length-digits k (n / 10) ((b'0' + n % 10) ∷ out) (omega (arith, pow-suc 10 k))))
  | no p ↦ rw (digits-zero n out p) (omega arith)
]

pub value-decimal : (n : ℕ) → value 0 (decimal n) ≡ n
unfolding decimal
value-decimal n = ground (arith, value-digits n [])

pub decimal-IsDigit : (n : ℕ) → All IsDigit (decimal n)
unfolding decimal
decimal-IsDigit n = ground (arith, digits-IsDigit n [] tt)

pub length-decimal : (k n : ℕ) → n < 10 ^ suc k → length (decimal n) ≤ suc k
unfolding decimal
length-decimal k n h = ground (arith, length-digits (suc k) n [] h)

digits-length_pos : (n : ℕ) (out : Bytes) → length out ≤ length (digits n out)
digits-length_pos n =
    WellFounded.induction lt_wf {C = λ m. (out : Bytes) → length out ≤ length (digits m out)} n
      λ m ih out. elim (dec_lt 0 m) [
        | yes p ↦
            rw (digits_of_pos m out p)
              (omega (arith, ih (m / 10) (tenth_lt p) ((b'0' + m % 10) ∷ out)))
        | no p ↦ rw (digits-zero m out p) (omega arith)
      ]

-- A number has at least one digit.
pub decimal-length_pos : (n : ℕ) → 0 < length (decimal n)
unfolding decimal
decimal-length_pos n =
    ground (arith, digits_of_pos n [], digits-length_pos (n / 10) ((b'0' + n % 10) ∷ []))

-- The longest run of digits: the number that it spells behind `n`, and what follows it.
unfoldable pub scan_digits : Bytes → ℕ → ℕ × Bytes
scan_digits [] n = (n, [])
scan_digits (c ∷ s) n = if is_digit c then scan_digits s (n * 10 + (c - b'0')) else (n, c ∷ s)

-- What std::from_chars returns: `ec` is std::errc{} with the value and the text from `ptr` on, or
-- one of the two errors.
pub data FromChars {ℓ} (A : Type ℓ) : Type ℓ where
  parsed : A → Bytes → FromChars A
  invalid_argument result_out_of_range : FromChars A

abbrev in_range : ℕ → ℕ × Bytes → FromChars ℕ
in_range most (n, rest) = if leb n most then parsed n rest else result_out_of_range

-- std::from_chars for an unsigned type whose greatest value is `most`.
unfoldable pub from_chars : ℕ → Bytes → FromChars ℕ
unfolding scan_digits
from_chars most [] = invalid_argument
from_chars most (c ∷ s) =
    if is_digit c then in_range most (scan_digits (c ∷ s) 0) else invalid_argument

-- A run of digits that the text ends with, or that a byte that is no digit follows, is read whole.
pub scan_digits-append :
    (s rest : Bytes) (n : ℕ)
    → All IsDigit s
    → scan_digits (s ++ rest) n ≡ scan_digits rest (value n s)
unfolding scan_digits
scan_digits-append [] rest n h = refl
scan_digits-append (c ∷ s) rest n (p, h) =
    ground (arith, scan_digits-append s rest (n * 10 + (c - b'0')) h)

pub from_chars-digits :
    (most : ℕ) (s : Bytes)
    → 0 < length s
    → All IsDigit s
    → from_chars most s
      ≡ (if leb (value 0 s) most then parsed (value 0 s) [] else result_out_of_range)
unfolding from_chars
from_chars-digits most [] h d = absurd (omega arith)
from_chars-digits most (c ∷ s) h (p, d) =
    ground (arith, scan_digits-append (c ∷ s) [] 0 (p, d), append-nil s)

-- A decimal print is read back where it is in range.
pub from_chars-decimal : (most n : ℕ) → n ≤ most → from_chars most (decimal n) ≡ parsed n []
from_chars-decimal most n h =
    rw
      (
        from_chars-digits most (decimal n) (decimal-length_pos n) (decimal-IsDigit n),
        value-decimal n,
      )
      (ground arith)
