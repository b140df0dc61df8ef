-- ===== src/Base/Strings.antt =====
-- C strings: bytes that end at the first NUL.
use Prim.Native.Nat.{ℕ, zero, suc, ◌≤◌}
use mathlib.Core.Path.{◌≡◌, ap, sym, ◌∙◌}
use mathlib.Core.Logic.{inl, inr}
use mathlib.Core.Bool.{false}
use mathlib.Core.List.{List, [], ◌∷◌, ◌++◌}
use native.Mathlib.Omega.{arith}
use intense_logic.Base.Tests.{◌==◌, if◌then◌else◌, Bool-cases}
use intense_logic.Base.Lists.{length, take}

-- `strnlen`: the bytes before the first NUL, at most `n` of them.
unfoldable pub strnlen : List ℕ → ℕ → ℕ
strnlen s zero = 0
strnlen [] (suc n) = 0
strnlen (c ∷ s) (suc n) = if c == 0 then 0 else suc (strnlen s n)

unfoldable pub NoNul : List ℕ → Type 0
NoNul [] = Unit
NoNul (c ∷ s) = ((c == 0) ≡ false) × NoNul s

pub strnlen-le : (s : List ℕ) (n : ℕ) → (strnlen s n ≤ length s) × (strnlen s n ≤ n)
unfolding strnlen
strnlen-le s zero = (omega arith, omega arith)
strnlen-le [] (suc n) = (omega arith, omega arith)
strnlen-le (c ∷ s) (suc n) = ground (arith, strnlen-le s n)

-- What stands in front of the first NUL has none,
pub NoNul-strnlen : (s : List ℕ) (n : ℕ) → NoNul (take (strnlen s n) s)
unfolding strnlen NoNul
NoNul-strnlen s zero = tt
NoNul-strnlen [] (suc n) = tt
NoNul-strnlen (c ∷ s) (suc n) = elim (Bool-cases (c == 0)) [
  | inl e ↦ rw e tt
  | inr e ↦ rw e (e, NoNul-strnlen s n)
]

pub NoNul-append : (s t : List ℕ) → NoNul s → NoNul t → NoNul (s ++ t)
unfolding NoNul
NoNul-append [] t a b = b
NoNul-append (c ∷ s) t (e, a) b = (e, NoNul-append s t a b)

-- and is measured whole.
pub strnlen-append : (s t : List ℕ) (n : ℕ) → NoNul s → n ≡ length s → strnlen (s ++ t) n ≡ n
unfolding strnlen NoNul
strnlen-append [] t n a e = ap (strnlen t) e ∙ sym e
strnlen-append (c ∷ s) t zero a e = absurd (omega arith)
strnlen-append (c ∷ s) t (suc n) (h, a) e = rw h (ap suc (strnlen-append s t n a (omega arith)))
