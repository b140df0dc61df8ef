-- ===== src/Math/Matrix.antt =====
-- math/matrix.c: four by four matrices, as compiled without `IL_SSE`. `none` is a failed assertion.
pub mod Laws
use intense_logic.Base.{
  for_to, List, [], ◌∷◌, get_or, ℕ, suc, zero, ◌+◌, ◌*◌, ◌==◌, Bool, true, false, not, ◌||◌,
  if◌then◌else◌, Option, none, some, ◌>>=◌,
}
use intense_logic.Math.Scalar.{Scalar}
use intense_logic.Math.Vector.{Vec4}
use intense_logic.Math.Quaternion.{Quat}

-- `il_mat`, with a field for each element of `data`.
pub record Mat (F : Type 0) : Type 0 where
  pub d0 : F
  pub d1 : F
  pub d2 : F
  pub d3 : F
  pub d4 : F
  pub d5 : F
  pub d6 : F
  pub d7 : F
  pub d8 : F
  pub d9 : F
  pub d10 : F
  pub d11 : F
  pub d12 : F
  pub d13 : F
  pub d14 : F
  pub d15 : F

module _ {F : Type 0} where
  -- `m.data[i]`; every index of the source is below 16.
  abbrev pub at : Mat F → ℕ → F
  at m i =
      get_or
        (m.d0 ∷ m.d1 ∷ m.d2 ∷ m.d3 ∷ m.d4 ∷ m.d5 ∷ m.d6 ∷ m.d7 ∷ m.d8 ∷ m.d9 ∷ m.d10 ∷ m.d11 ∷ m.d12
          ∷ m.d13 ∷ m.d14 ∷ m.d15 ∷ [])
        i m.d15

  -- `m.data[i] = v`
  abbrev pub put : Mat F → ℕ → F → Mat F
  put m i v = record {
    d0 = if i == 0 then v else m.d0;
    d1 = if i == 1 then v else m.d1;
    d2 = if i == 2 then v else m.d2;
    d3 = if i == 3 then v else m.d3;
    d4 = if i == 4 then v else m.d4;
    d5 = if i == 5 then v else m.d5;
    d6 = if i == 6 then v else m.d6;
    d7 = if i == 7 then v else m.d7;
    d8 = if i == 8 then v else m.d8;
    d9 = if i == 9 then v else m.d9;
    d10 = if i == 10 then v else m.d10;
    d11 = if i == 11 then v else m.d11;
    d12 = if i == 12 then v else m.d12;
    d13 = if i == 13 then v else m.d13;
    d14 = if i == 14 then v else m.d14;
    d15 = if i == 15 then v else m.d15;
  }

  -- `il_mat_new`
  abbrev pub mat_new : F → F → F → F → F → F → F → F → F → F → F → F → F → F → F → F → Mat F
  mat_new d00 d01 d02 d03 d10 d11 d12 d13 d20 d21 d22 d23 d30 d31 d32 d33 = record {
    d0 = d00;
    d1 = d01;
    d2 = d02;
    d3 = d03;
    d4 = d10;
    d5 = d11;
    d6 = d12;
    d7 = d13;
    d8 = d20;
    d9 = d21;
    d10 = d22;
    d11 = d23;
    d12 = d30;
    d13 = d31;
    d14 = d32;
    d15 = d33;
  }

module _ {F : Type 0} (s : Scalar F) where
  -- `il_mat_zero`
  abbrev pub mat_zero : Mat F
  mat_zero = let o = s.zero in mat_new o o o o o o o o o o o o o o o o

  -- `il_mat_identity`
  abbrev pub identity : Mat F
  identity = let o = s.zero in let l = s.one in mat_new l o o o o l o o o o l o o o o l

  -- `il_mat_mul`
  unfoldable pub mat_mul : Mat F → Mat F → Mat F
  mat_mul a b =
      for_to 4
        (λ i. for_to 4 λ j. for_to 4 λ k res.
          put res (i * 4 + j)
            (s.add (at res (i * 4 + j)) (s.mul (at a (i * 4 + k)) (at b (k * 4 + j)))))
        mat_zero

  -- `il_mat_mulv`: an element of `vec`.
  abbrev row_sum : Mat F → Vec4 F → ℕ → F
  row_sum a b i =
      s.add
        (s.add (s.add (s.add s.zero (s.mul (at a (i * 4 + 0)) b.x)) (s.mul (at a (i * 4 + 1)) b.y))
          (s.mul (at a (i * 4 + 2)) b.z))
        (s.mul (at a (i * 4 + 3)) b.w)

  -- `il_mat_mulv`
  unfoldable pub mat_mulv : Mat F → Vec4 F → Vec4 F
  mat_mulv a b = record {
    x = row_sum a b 0;
    y = row_sum a b 1;
    z = row_sum a b 2;
    w = row_sum a b 3;
  }

  -- `il_mat_translate`
  unfoldable pub translate : Vec4 F → Mat F
  translate v = let o = s.zero in let l = s.one in mat_new l o o v.x o l o v.y o o l v.z o o o v.w

  -- `il_mat_scale`
  unfoldable pub scale : Vec4 F → Mat F
  scale v = let o = s.zero in mat_new v.x o o o o v.y o o o o v.z o o o o v.w

  -- `il_mat_perspective`
  unfoldable pub perspective : F → F → F → F → Mat F
  perspective fovy aspect znear zfar =
      let o = s.zero in
      let f = s.div s.one (s.tan (s.div fovy s.two)) in
      let clip0 = s.div (s.add zfar znear) (s.sub znear zfar) in
      let clip1 = s.div (s.mul (s.mul s.two zfar) znear) (s.sub znear zfar) in
      mat_new (s.div f aspect) o o o o f o o o o clip0 clip1 o o (s.neg s.one) o

  -- `il_mat_rotate`
  unfoldable pub rotate : Quat F → Mat F
  rotate q =
      let o = s.zero in
      let t = λ (a b : F). s.mul (s.mul s.two a) b in
      let d = λ (a b : F). s.sub (s.sub s.one (t a a)) (t b b) in
      mat_new (d q.y q.z) (s.add (t q.x q.y) (t q.w q.z)) (s.sub (t q.x q.z) (t q.w q.y)) o
        (s.sub (t q.x q.y) (t q.w q.z)) (d q.x q.z) (s.add (t q.y q.z) (t q.w q.x)) o
        (s.add (t q.x q.z) (t q.w q.y)) (s.sub (t q.y q.z) (t q.w q.x)) (d q.x q.y) o o o o s.one

  -- `addrow`
  unfoldable pub addrow : Mat F → ℕ → ℕ → F → Mat F
  addrow m src dst f =
      for_to 4
        (λ j m. put m (dst * 4 + j) (s.add (at m (dst * 4 + j)) (s.mul (at m (src * 4 + j)) f))) m

  -- `swaprow`
  unfoldable pub swaprow : Mat F → ℕ → ℕ → Mat F
  swaprow m src dst =
      for_to 4
        (λ j r. put (put r (4 * dst + j) (at m (4 * src + j))) (4 * src + j) (at m (4 * dst + j))) m

  -- `mulrow`
  unfoldable pub mulrow : Mat F → ℕ → F → Mat F
  mulrow m col f = for_to 4 (λ j m. put m (col * 4 + j) (s.mul (at m (col * 4 + j)) f)) m

  -- `il_mat_transpose`
  unfoldable pub transpose : Mat F → Mat F
  transpose a = for_to 4 (λ y. for_to 4 λ x res. put res (y * 4 + x) (at a (x * 4 + y))) identity

  -- The search of `il_mat_invert` for a row with a better diagonal: it does not stop at the first.
  unfoldable pub hunt : ℕ → Mat F × Mat F → Mat F × Mat F
  hunt col = for_to 4 (λ row r.
      if (row == col) || not (s.le s.eps (s.abs (at (r.0) (row * 4 + col))))
      then r
      else (swaprow (r.0) row col, swaprow (r.1) row col))

  -- The elimination of a column, and its diagonal brought to 1.
  unfoldable pub eliminate : ℕ → Mat F × Mat F → Mat F × Mat F
  eliminate col r =
      let diagonal = at (r.0) (col * 4 + col) in
      let step = λ (row : ℕ) (m : Mat F × Mat F).
        let f = s.div (s.neg (at (m.0) (row * 4 + col))) diagonal in
        if row == col then m else (addrow (m.0) col row f, addrow (m.1) col row f) in
      let done = for_to 4 step r in
      (mulrow (done.0) col (s.div s.one diagonal), mulrow (done.1) col (s.div s.one diagonal))

  -- A round of `il_mat_invert`, for one column.
  unfoldable pub invert_column : ℕ → Mat F × Mat F → Option (Mat F × Mat F)
  invert_column col r =
      let better = hunt col r in
      if s.lt (s.abs (at (r.0) (col * 4 + col))) s.eps
      then if s.le s.eps (s.abs (at (better.0) (col * 4 + col)))
        then some (eliminate col better)
        else none
      else some (eliminate col r)

  -- `il_mat_invert`
  unfoldable pub invert : Mat F → Option (Mat F)
  invert a = do
    r0 ← invert_column 0 (a, identity)
    r1 ← invert_column 1 r0
    r2 ← invert_column 2 r1
    (done, res) ← invert_column 3 r2
    some res
