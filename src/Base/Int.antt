-- ===== src/Base/Int.antt =====
-- The integers over the native numbers, and their order.
use Prim.Native.Nat.{ℕ, zero, suc, ◌+◌, ◌-◌}
use mathlib.Core.Path.{◌≡◌, refl}
use mathlib.Core.Bool.{Bool, true, false}
use native.Mathlib.Omega.{arith}
use intense_logic.Base.Tests.{ltb, leb, if◌then◌else◌}

pub data ℤ : Type 0 where
  pos : ℕ → ℤ
  negsuc : ℕ → ℤ

-- `a < b` on an `int`
abbrev pub int_lt : ℤ → ℤ → Bool
int_lt (pos a) (pos b) = ltb a b
int_lt (pos a) (negsuc b) = false
int_lt (negsuc a) (pos b) = true
int_lt (negsuc a) (negsuc b) = ltb b a

pub int_lt_asym : (a b : ℤ) → int_lt a b ≡ true → int_lt b a ≡ false
int_lt_asym (pos a) (pos b) h = ground arith
int_lt_asym (pos a) (negsuc b) h = ground arith
int_lt_asym (negsuc a) (pos b) h = refl
int_lt_asym (negsuc a) (negsuc b) h = ground arith

-- `a - b` of natural numbers, as an `int`
abbrev pub nat_sub : ℕ → ℕ → ℤ
nat_sub a b = if leb b a then pos (a - b) else negsuc (b - a - 1)

-- `a + b` and `a - b`, without overflow
abbrev pub int_add : ℤ → ℤ → ℤ
int_add (pos a) (pos b) = pos (a + b)
int_add (pos a) (negsuc b) = nat_sub a (b + 1)
int_add (negsuc a) (pos b) = nat_sub b (a + 1)
int_add (negsuc a) (negsuc b) = negsuc (a + b + 1)

abbrev pub int_neg : ℤ → ℤ
int_neg (pos zero) = pos zero
int_neg (pos (suc a)) = negsuc a
int_neg (negsuc a) = pos (suc a)

abbrev pub int_sub : ℤ → ℤ → ℤ
int_sub a b = int_add a (int_neg b)

-- The order after a move by `a`
pub int_lt_add : (x a : ℤ) → int_lt (int_add x a) a ≡ int_lt x (pos 0)
int_lt_add (pos x) (pos zero) = ground arith
int_lt_add (pos x) (pos (suc a)) = ground arith
int_lt_add (pos x) (negsuc a) = ground arith
int_lt_add (negsuc x) (pos zero) = ground arith
int_lt_add (negsuc x) (pos (suc a)) = ground arith
int_lt_add (negsuc x) (negsuc a) = ground arith

pub int_lt_sub : (x a b : ℤ) → int_lt (int_add x a) b ≡ int_lt x (int_sub b a)
int_lt_sub (pos x) (pos zero) (pos b) = ground arith
int_lt_sub (pos x) (pos zero) (negsuc b) = ground arith
int_lt_sub (pos x) (pos (suc a)) (pos b) = ground arith
int_lt_sub (pos x) (pos (suc a)) (negsuc b) = ground arith
int_lt_sub (pos x) (negsuc a) (pos b) = ground arith
int_lt_sub (pos x) (negsuc a) (negsuc b) = ground arith
int_lt_sub (negsuc x) (pos zero) (pos b) = ground arith
int_lt_sub (negsuc x) (pos zero) (negsuc b) = ground arith
int_lt_sub (negsuc x) (pos (suc a)) (pos b) = ground arith
int_lt_sub (negsuc x) (pos (suc a)) (negsuc b) = ground arith
int_lt_sub (negsuc x) (negsuc a) (pos b) = ground arith
int_lt_sub (negsuc x) (negsuc a) (negsuc b) = ground arith

pub int_add_zero : (a : ℤ) → int_add a (pos 0) ≡ a
int_add_zero (pos a) = ground arith
int_add_zero (negsuc a) = ground arith
