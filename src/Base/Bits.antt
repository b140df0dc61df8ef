-- ===== src/Base/Bits.antt =====
-- Laws of `bit_or` at variables, from the digit recursion.
use mathlib.Core.Bool.{Bool, true, ◌&&◌}
use Prim.Native.Nat.{
  ℕ, zero, suc, ◌+◌, ◌*◌, ◌/◌, ◌%◌, ◌^◌, ◌≤◌, ◌<◌, max, bit_or, digits, bit_or-bitwise,
}
use mathlib.Core.Path.{◌≡◌, refl, ap, ap₂, ◌∙◌}
use native.Mathlib.Nat.{pow-suc}
use native.Mathlib.Omega.{arith}

abbrev or_digits : ℕ → ℕ → ℕ → ℕ
or_digits n a b = digits (λ b. b) max n a b

or_digits_fuel : (n m a b : ℕ) → a ≤ n → a ≤ m → or_digits n a b ≡ or_digits m a b
or_digits_fuel zero zero a b p q = refl
or_digits_fuel zero (suc m) zero b p q = refl
or_digits_fuel zero (suc m) (suc a) b p q = absurd (omega arith)
or_digits_fuel (suc n) zero zero b p q = refl
or_digits_fuel (suc n) zero (suc a) b p q = absurd (omega arith)
or_digits_fuel (suc n) (suc m) zero b p q = refl
or_digits_fuel (suc n) (suc m) (suc a) b p q =
    omega (arith, or_digits_fuel n m (suc a / 2) (b / 2) (omega arith) (omega arith))

pub zero-bit_or : (b : ℕ) → bit_or 0 b ≡ b
zero-bit_or b = bit_or-bitwise 0 b

pub bit_or_step : (a b : ℕ) → bit_or a b ≡ bit_or (a / 2) (b / 2) * 2 + max (a % 2) (b % 2)
bit_or_step zero b = omega (arith, zero-bit_or b, zero-bit_or (b / 2))
bit_or_step (suc a) b = omega (
  arith,
  bit_or-bitwise (suc a) b,
  bit_or-bitwise (suc a / 2) (b / 2),
  or_digits_fuel a (suc a / 2) (suc a / 2) (b / 2) (omega arith) (omega arith),
)

bit_or-zero_fuel : (n a : ℕ) → a ≤ n → bit_or a 0 ≡ a
bit_or-zero_fuel zero zero h = refl
bit_or-zero_fuel zero (suc a) h = absurd (omega arith)
bit_or-zero_fuel (suc n) zero h = refl
bit_or-zero_fuel (suc n) (suc a) h =
    omega (arith, bit_or_step (suc a) 0, bit_or-zero_fuel n (suc a / 2) (omega arith))

pub bit_or-zero : (a : ℕ) → bit_or a 0 ≡ a
bit_or-zero a = bit_or-zero_fuel a a (omega arith)

-- Or-ing into a zero digit, below what stands above it.
or_double : (x y : ℕ) → bit_or (2 * x) y ≡ bit_or x (y / 2) * 2 + y % 2
or_double x y = rw (bit_or_step (2 * x) y, half) (omega arith)
  where
    half : 2 * x / 2 ≡ x
    half = omega arith

-- Disjoint bits: a number below 2 ^ w or-ed into one whose low w bits are zero is a sum.
pub bit_or-disjoint : (w x y : ℕ) → y < 2 ^ w → bit_or (x * 2 ^ w) y ≡ x * 2 ^ w + y
bit_or-disjoint zero x y h =
    ap₂ bit_or {y = x} {v = 0} (omega arith) (omega arith) ∙ bit_or-zero x ∙ omega arith
bit_or-disjoint (suc w) x y h =
    ap (λ a. bit_or a y) (split w x)
    ∙ or_double (x * 2 ^ w) y
    ∙ omega (arith, bit_or-disjoint w x (y / 2) (omega (arith, pow-suc 2 w)), split w x)
  where
    split : (w x : ℕ) → x * 2 ^ suc w ≡ 2 * (x * 2 ^ w)
    split w x = rw (pow-suc 2 w) (grind arith)

-- A Boolean test of all numbers below a bound, to be evaluated; and what it says of each.
abbrev pub table : ℕ → (ℕ → Bool) → Bool
table zero p = true
table (suc n) p = p n && table n p

pub table-get : (n : ℕ) (p : ℕ → Bool) (x : ℕ) → table n p ≡ true → x < n → p x ≡ true
table-get zero p x h lt = absurd (omega arith)
table-get (suc n) p x h lt = ground (arith, table-get n p x)
