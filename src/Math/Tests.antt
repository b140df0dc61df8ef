-- ===== src/Math/Tests.antt =====
-- math/ over the natural numbers, which stand for floats that are whole.
use intense_logic.Base.{ℕ, ◌≡◌, refl}
use intense_logic.Math.Naturals.{naturals, naturals-IsExact}
use intense_logic.Math.Vector.{Vec4}
use intense_logic.Math.Matrix.{Mat, mat_mul, mat_mulv, mat_new, transpose}
use intense_logic.Math.Matrix.Laws.{transpose-transpose, mat_mulv-mat_mul}

abbrev move : Mat ℕ
move = mat_new 1 0 0 3 0 1 0 4 0 0 1 5 0 0 0 1

abbrev double : Mat ℕ
double = mat_new 2 0 0 0 0 2 0 0 0 0 2 0 0 0 0 1

abbrev point : Vec4 ℕ
point = record { x = 1; y = 2; z = 3; w = 1 }

mat_mulv-mat_mul_example :
    mat_mulv naturals (mat_mul naturals move double) point
    ≡ mat_mulv naturals move (mat_mulv naturals double point)
mat_mulv-mat_mul_example = mat_mulv-mat_mul naturals naturals-IsExact move double point

-- The point is scaled, then moved.
moved_double :
    mat_mulv naturals (mat_mul naturals move double) point ≡ record { x = 5; y = 8; z = 11; w = 1 }
unfolding mat_mulv mat_mul
moved_double = refl

transpose-transpose_example : transpose naturals (transpose naturals move) ≡ move
transpose-transpose_example = transpose-transpose naturals move
