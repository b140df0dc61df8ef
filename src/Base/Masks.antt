-- ===== src/Base/Masks.antt =====
-- Masks of low bits, from the recursion on digits that the native operations stand for.
use Prim.Native.Nat.{
  ℕ, zero, suc, ◌+◌, ◌-◌, ◌*◌, ◌/◌, ◌%◌, ◌^◌, ◌≤◌, ◌<◌, min, bit_and, digits, bit_and-bitwise,
}
use mathlib.Core.Path.{◌≡◌, refl, sym, ap, ◌∙◌}
use native.Mathlib.Nat.{
  pow-suc, mod-add-div, mod-lt, mul_assoc, add-mul-mod_self_left, mod-eq_of_lt,
}
use native.Mathlib.Omega.{arith}

-- An operation on digits, `f` on each pair and `z` on what is left, for any rounds that are enough
module _ (z : ℕ → ℕ) (f : ℕ → ℕ → ℕ) where
  digits-none : (rounds b : ℕ) → digits z f rounds 0 b ≡ z b
  digits-none zero b = refl
  digits-none (suc rounds) b = refl

  digits_same : (r t a b : ℕ) → a ≤ r → a ≤ t → digits z f r a b ≡ digits z f t a b
  digits_same r t zero b h k = digits-none r b ∙ sym (digits-none t b)
  digits_same zero t (suc a) b h k = absurd (omega arith)
  digits_same (suc r) zero (suc a) b h k = absurd (omega arith)
  digits_same (suc r) (suc t) (suc a) b h k =
      ap (λ high. high * 2 + f (suc a % 2) (b % 2))
        (digits_same r t (suc a / 2) (b / 2) (omega arith) (omega arith))

-- The lowest bit of a conjunction, and the others
bit_and-low : (a b : ℕ) → bit_and a b ≡ bit_and (a / 2) (b / 2) * 2 + min (a % 2) (b % 2)
bit_and-low a b =
    bit_and-bitwise a b
    ∙ lowest a
    ∙ ap (λ high. high * 2 + min (a % 2) (b % 2)) (sym (bit_and-bitwise (a / 2) (b / 2)))
  where
    lowest :
        (a : ℕ)
        → digits (λ b. 0) min a a b
          ≡ digits (λ b. 0) min (a / 2) (a / 2) (b / 2) * 2 + min (a % 2) (b % 2)
    lowest zero = omega arith
    lowest (suc a) =
        ap (λ high. high * 2 + min (suc a % 2) (b % 2))
          (digits_same (λ b. 0) min a (suc a / 2) (suc a / 2) (b / 2) (omega arith) (omega arith))

nothing_masked : (rounds a : ℕ) → digits (λ b. 0) min rounds a 0 ≡ 0
nothing_masked rounds zero = digits-none (λ b. 0) min rounds 0
nothing_masked zero (suc a) = refl
nothing_masked (suc rounds) (suc a) = omega (arith, nothing_masked rounds (suc a / 2))

pub power_positive : (w : ℕ) → 0 < 2 ^ w
power_positive zero = omega arith
power_positive (suc w) = omega (arith, pow-suc 2 w, power_positive w)

-- The last digit and the others, below a power of two
mod-double : (p a : ℕ) → 0 < p → a % (2 * p) ≡ a / 2 % p * 2 + a % 2
mod-double p a h =
    let r = a / 2 % p in
    let q = a / 2 / p in
    let parts = mod-add-div (a / 2) p in
    let less = mod-lt (a / 2) h in
    let whole : a ≡ r * 2 + a % 2 + 2 * p * q = omega (arith, parts, mul_assoc 2 p q) in
    ap (λ n. n % (2 * p)) whole
    ∙ add-mul-mod_self_left (r * 2 + a % 2) (2 * p) q
    ∙ mod-eq_of_lt (omega (arith, less))

-- The low `w` bits of a number, as a mask takes them
pub bit_and-mask : (w a : ℕ) → bit_and a (2 ^ w - 1) ≡ a % 2 ^ w
bit_and-mask zero a = bit_and-bitwise a 0 ∙ nothing_masked a a ∙ omega arith
bit_and-mask (suc w) a =
    let p = 2 ^ w in
    let pos = power_positive w in
    let double : 2 ^ suc w ≡ 2 * p = omega (arith, pow-suc 2 w) in
    let half : (2 * p - 1) / 2 ≡ p - 1 = omega (arith, pos) in
    rw double (
      bit_and-low a (2 * p - 1)
      ∙ ap (λ m. bit_and (a / 2) m * 2 + min (a % 2) ((2 * p - 1) % 2)) half
      ∙ ap (λ n. n * 2 + min (a % 2) ((2 * p - 1) % 2)) (bit_and-mask w (a / 2))
      ∙ omega (arith, pos)
      ∙ sym (mod-double p a pos))
