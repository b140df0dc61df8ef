-- ===== src/Base/Contains.antt =====
-- Whether a number is in a list.
use Prim.Native.Nat.{ℕ, zero, suc}
use mathlib.Core.Path.{◌≡◌, refl, ap}
use mathlib.Core.Bool.{Bool, true, false}
use mathlib.Core.Option.{some}
use mathlib.Core.List.{List, [], ◌∷◌, ◌++◌}
use native.Mathlib.Omega.{arith}
use native.Mathlib.Decide.{ℕ_discrete}
use intense_logic.Base.Tests.{◌==◌, if◌then◌else◌}
use intense_logic.Base.Lists.{get_elem?}

-- The search of the free list by `il_world_next`, and of lists of pointers.
abbrev pub contains : List ℕ → ℕ → Bool
contains [] id = false
contains (x ∷ xs) id = if x == id then true else contains xs id

pub contains-append :
    (xs : List ℕ) (x id : ℕ)
    → contains (xs ++ (x ∷ [])) id ≡ (if x == id then true else contains xs id)
contains-append [] x id = refl
contains-append (y ∷ xs) x id = ground (arith, contains-append xs x id)

pub contains-index :
    (xs : List ℕ) (id : ℕ) → contains xs id ≡ true → (i : ℕ) × (get_elem? xs i ≡ some id)
contains-index [] id h = absurd (ground arith)
contains-index (x ∷ xs) id h = elim (ℕ_discrete x id) [
  | yes e ↦ (0, ap some e)
  | no n ↦ let (i, e) = contains-index xs id (ground arith) in (suc i, e)
]

pub index-contains : (xs : List ℕ) (i id : ℕ) → get_elem? xs i ≡ some id → contains xs id ≡ true
index-contains [] i id h = absurd (ground arith)
index-contains (x ∷ xs) zero id h = ground arith
index-contains (x ∷ xs) (suc i) id h = ground (arith, index-contains xs i id)
