-- ===== src/Array/Tests.antt =====
-- util/array.h on small arrays.
use intense_logic.Base.{ℕ, ◌≡◌, refl, some, List, [], ◌∷◌, arith}
use intense_logic.Array.{Array, contents, insert, set_at, remove, Layout}
use intense_logic.Array.Valid.{IsValid}
use intense_logic.Array.Insert.{contents-insert}
use intense_logic.Array.Grow.{set_at-IsSetAt, IsSetAt}
use intense_logic.Array.Remove.{remove_middle}

-- Three elements in use, in storage for four.
abbrev three : Array ℕ
three = record { mem = 5 ∷ 6 ∷ 7 ∷ 0 ∷ []; length = 3; capacity = 4 }

three-IsValid : IsValid three
three-IsValid = record { storage = refl; fits = omega arith }

contents-insert_example :
    (b : Array ℕ) × (insert 0 three 1 9 ≡ some b) × IsValid b × (contents b ≡ 5 ∷ 9 ∷ 6 ∷ 7 ∷ [])
contents-insert_example = contents-insert 0 three 1 9 three-IsValid (omega arith)

set_at-IsSetAt_example : (b : Array ℕ) × (set_at 0 4 three 80 9 ≡ some b) × IsSetAt 0 three 80 9 b
set_at-IsSetAt_example = set_at-IsSetAt 0 3 three 80 9 three-IsValid (omega arith)

abbrev low : List ℕ → ℕ
low [] = 0
low (b ∷ bs) = b

abbrev pair_value : List ℕ → ℕ × ℕ
pair_value [] = (0, 0)
pair_value (a ∷ bs) = (a, low bs)

-- A struct of two bytes.
abbrev pair_layout : Layout (ℕ × ℕ)
pair_layout = record {
  size = 2;
  bytes = λ p. p.0 ∷ p.1 ∷ [];
  value = pair_value;
  length-bytes = λ p. refl;
  value-bytes = λ p. refl;
}

abbrev pairs : Array (ℕ × ℕ)
pairs = record { mem = (1, 2) ∷ (3, 4) ∷ (5, 6) ∷ []; length = 3; capacity = 3 }

pairs-IsValid : IsValid pairs
pairs-IsValid = record { storage = refl; fits = omega arith }

-- Removing (3, 4) leaves it half overwritten, and drops (5, 6).
remove_middle_example :
    (b : Array (ℕ × ℕ)) × (remove pair_layout pairs 1 ≡ some b)
    × IsValid b
    × (contents b ≡ (1, 2) ∷ (5, 4) ∷ [])
remove_middle_example =
    remove_middle pair_layout pairs 1 (3, 4) (5, 6) pairs-IsValid (omega arith) (omega arith) refl
      refl
