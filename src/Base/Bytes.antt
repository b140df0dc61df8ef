-- ===== src/Base/Bytes.antt =====
-- Texts compared byte by byte.
use Prim.Native.Nat.{ℕ}
use mathlib.Core.Path.{◌≡◌, refl}
use mathlib.Core.Bool.{Bool, true, false, ◌&&◌}
use mathlib.Core.List.{List, [], ◌∷◌}
use native.Mathlib.Omega.{arith}
use intense_logic.Base.Tests.{◌==◌}

infix 50 ◌=b◌
abbrev pub ◌=b◌ : List ℕ → List ℕ → Bool
[] =b [] = true
[] =b (y ∷ ys) = false
(x ∷ xs) =b [] = false
(x ∷ xs) =b (y ∷ ys) = x == y && xs =b ys

pub =b_self : (k : List ℕ) → (k =b k) ≡ true
=b_self [] = refl
=b_self (x ∷ xs) = ground (arith, =b_self xs)

pub =b_eq : (j k : List ℕ) → (j =b k) ≡ true → j ≡ k
=b_eq [] [] h = refl
=b_eq [] (y ∷ ys) h = cc
=b_eq (x ∷ xs) [] h = cc
=b_eq (x ∷ xs) (y ∷ ys) h = ground (arith, =b_eq xs ys)
