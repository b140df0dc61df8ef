-- ===== src/Math/Scalar.antt =====
-- The float operations of math/*.c, with the rounding that they have, as an interface.
use intense_logic.Base.{◌≡◌, Bool}

pub record Scalar (F : Type 0) : Type 0 where
  pub zero : F
  pub one : F
  pub two : F
  pub add : F → F → F
  pub sub : F → F → F
  pub mul : F → F → F
  pub div : F → F → F
  pub neg : F → F
  pub sqrt : F → F
  pub sin : F → F
  pub cos : F → F
  pub tan : F → F
  pub abs : F → F
  -- 0.0001
  pub eps : F
  pub lt : F → F → Bool
  pub le : F → F → Bool

-- Arithmetic without rounding: the laws of a commutative ring.
pub record IsExact {F : Type 0} (s : Scalar F) : Type 0 where
  pub add_assoc : (a b c : F) → s.add (s.add a b) c ≡ s.add a (s.add b c)
  pub add_comm : (a b : F) → s.add a b ≡ s.add b a
  pub zero_add : (a : F) → s.add s.zero a ≡ a
  pub mul_assoc : (a b c : F) → s.mul (s.mul a b) c ≡ s.mul a (s.mul b c)
  pub mul_comm : (a b : F) → s.mul a b ≡ s.mul b a
  pub one_mul : (a : F) → s.mul s.one a ≡ a
  pub zero_mul : (a : F) → s.mul s.zero a ≡ s.zero
  pub mul_add : (a b c : F) → s.mul a (s.add b c) ≡ s.add (s.mul a b) (s.mul a c)
