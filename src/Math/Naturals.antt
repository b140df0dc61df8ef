-- ===== src/Math/Naturals.antt =====
-- The natural numbers, in place of the floats: their sums and products are exact.
use intense_logic.Base.{ℕ, ◌+◌, ◌-◌, ◌*◌, ◌/◌, arith, ltb, leb}
use intense_logic.Math.Scalar.{Scalar, IsExact}

abbrev pub naturals : Scalar ℕ
naturals = record {
  zero = 0;
  one = 1;
  two = 2;
  add = λ a b. a + b;
  sub = λ a b. a - b;
  mul = λ a b. a * b;
  div = λ a b. a / b;
  neg = λ a. a;
  sqrt = λ a. a;
  sin = λ a. a;
  cos = λ a. a;
  tan = λ a. a;
  abs = λ a. a;
  eps = 0;
  lt = ltb;
  le = leb;
}

pub naturals-IsExact : IsExact naturals
naturals-IsExact = record {
  add_assoc = λ a b c. omega arith;
  add_comm = λ a b. omega arith;
  zero_add = λ a. omega arith;
  mul_assoc = λ a b c. omega arith;
  mul_comm = λ a b. omega arith;
  one_mul = λ a. omega arith;
  zero_mul = λ a. omega arith;
  mul_add = λ a b c. omega arith;
}
