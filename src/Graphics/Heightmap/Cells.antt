-- ===== src/Graphics/Heightmap/Cells.antt =====
-- graphics/heightmap.c: the mesh is filled from its start, without a gap.
use intense_logic.Base.{
  ◌%◌, ◌^◌, ℕ, zero, suc, ◌+◌, ◌-◌, ◌*◌, ◌≤◌, ◌<◌, ◌≡◌, refl, sym, ap, ◌∙◌, Option, none, some,
  List, [], ◌∷◌, arith, length, get_elem?, set, replicate, ℕ_discrete,
}
use intense_logic.Base.{
  ◌>>=◌, bind_some, lt→ltb, length-set, length-replicate, get_elem?-set_self, get_elem?-set_ne,
}
use native.Mathlib.Nat.{zero-mul, suc-mul, mul-le-mul, mul-le-mul_right, mul_assoc, mul_comm}
use intense_logic.Graphics.Heightmap.{
  Vertex, cell, Filled, put, put_cell, row, rows, heightmap_mesh,
}

-- The vertices before `i` are set.
unfoldable pub IsFilled : Filled → Type 0
IsFilled (i, mesh) = (k : ℕ) → k < i → (v : Vertex) × (get_elem? mesh k ≡ some (some v))

-- What a part of the loops that writes `n` vertices does
Writes : ℕ → Filled → Option Filled → Type 0
Writes n m o =
    (m' : Filled) × (o ≡ some m') × (m'.0 ≡ m.0 + n) × (length m'.1 ≡ length m.1) × IsFilled m'

put_runs :
    (vs : List Vertex) (m : Filled)
    → IsFilled m
    → m.0 + length vs ≤ length m.1
    → Writes (length vs) m (put vs m)
unfolding put Writes IsFilled
put_runs [] m w h = (m, refl, omega arith, refl, w)
put_runs (v ∷ vs) (i, mesh) w h =
    let (m', e, n, l, w') =
      put_runs vs (i + 1, set mesh i (some v))
        (λ k below. elim (ℕ_discrete k i) [
          | yes same ↦ (
            v,
            ap (get_elem? (set mesh i (some v))) same
                ∙ get_elem?-set_self mesh i (some v) (omega arith),
          )
          | no other ↦
              let (u, q) = w k (omega (arith, other)) in
              (u, get_elem?-set_ne mesh i k (some v) (λ e. other (sym e)) ∙ q)
        ])
        (omega (arith, length-set mesh i (some v))) in
    (
      m',
      rw (lt→ltb i (length mesh) (omega arith)) e,
      omega (arith, n),
      l ∙ length-set mesh i (some v),
      w',
    )

-- Two parts, one after the other
then_runs :
    (n a b : ℕ) (m : Filled) (o : Option Filled) (next : Filled → Option Filled)
    → n ≡ a + b
    → Writes a m o
    → ((m' : Filled)
        → m'.0 ≡ m.0 + a
        → length m'.1 ≡ length m.1
        → IsFilled m'
        → Writes b m' (next m'))
    → Writes n m (o >>= next)
unfolding Writes
then_runs n a b m o next q (m1, e1, n1, l1, w1) k =
    let (m2, e2, n2, l2, w2) = k m1 n1 l1 w1 in
    (m2, bind_some next e1 ∙ e2, omega (arith, n1, n2, q), l2 ∙ l1, w2)

cell_runs :
    (x y : ℕ) (m : Filled)
    → IsFilled m
    → length m.1 < 2 ^ 32
    → m.0 + 6 ≤ length m.1
    → Writes 6 m (put_cell x y m)
unfolding cell put_cell Writes
cell_runs x y m w small h =
    let (m', e, n, l, w') = put_runs (cell x y) m w h in
    (
      m',
      bind_some _ e ∙ ap (λ i. some (i, m'.1)) {x = m'.0 % 2 ^ 32} {y = m'.0} (omega (arith, n)),
      n,
      l,
      w',
    )

row_runs :
    (n x y : ℕ) (m : Filled)
    → IsFilled m
    → length m.1 < 2 ^ 32
    → m.0 + n * 6 ≤ length m.1
    → Writes (n * 6) m (row n x y m)
unfolding row Writes
row_runs zero x y m w s h = (m, refl, omega arith, refl, w)
row_runs (suc n) x y m w s h =
    then_runs (suc n * 6) 6 (n * 6) m (put_cell x y m) (row n (x + 1) y) (omega arith)
      (cell_runs x y m w s (omega arith))
      (λ m' e l w'. row_runs n (x + 1) y m' w' (omega (arith, l, s)) (omega (arith, e, l)))

rows_runs :
    (n w y : ℕ) (m : Filled)
    → IsFilled m
    → length m.1 < 2 ^ 32
    → m.0 + n * ((w - 1) * 6) ≤ length m.1
    → Writes (n * ((w - 1) * 6)) m (rows n w y m)
unfolding rows Writes
rows_runs zero w y m f s h = (m, refl, omega (arith, zero-mul ((w - 1) * 6)), refl, f)
rows_runs (suc n) w y m f s h =
    let more = suc-mul n ((w - 1) * 6) in
    then_runs (suc n * ((w - 1) * 6)) ((w - 1) * 6) (n * ((w - 1) * 6)) m (row (w - 1) 1 y m)
      (rows n w (y + 1)) (omega (arith, more)) (row_runs (w - 1) 1 y m f s (omega (arith, more)))
      (λ m' e l f'. rows_runs n w (y + 1) m' f' (omega (arith, l, s)) (omega (arith, e, l, more)))

cells_fit : (w h : ℕ) → (h - 1) * ((w - 1) * 6) ≤ w * h * 6
cells_fit w h =
    let smaller =
      mul-le-mul {n₁ = h - 1} {m₁ = w - 1} {n₂ = h} {m₂ = w} (omega arith) (omega arith) in
    rw (sym (mul_assoc (h - 1) (w - 1) 6), mul_comm w h) (mul-le-mul_right 6 smaller)

-- The mesh of a heightmap is filled without an access outside its storage: six vertices for each
-- cell between neighbouring points of the grid are set, from the start and without a gap. The
-- number of vertices w * h * 6 is below 2^32.
pub heightmap_mesh_lem :
    (w h k : ℕ)
    → w * h * 6 < 2 ^ 32
    → k < (h - 1) * ((w - 1) * 6)
    → (mesh : List (Option Vertex)) × (heightmap_mesh w h ≡ some ((h - 1) * ((w - 1) * 6), mesh))
      × (length mesh ≡ w * h * 6)
      × ((v : Vertex) × (get_elem? mesh k ≡ some (some v)))
unfolding heightmap_mesh IsFilled Writes
heightmap_mesh_lem w h k small below =
    let start = replicate {A = Option Vertex} (w * h * 6 % 2 ^ 32) none in
    let long : length start ≡ w * h * 6 =
      length-replicate {A = Option Vertex} (w * h * 6 % 2 ^ 32) none ∙ omega (arith, small) in
    let (m, e, n, l, f) =
      rows_runs (h - 1) w 1 (0, start) (λ i b. absurd (omega arith)) (omega (arith, long, small))
        (omega (arith, long, cells_fit w h)) in
    (m.1, e ∙ ap (λ i. some (i, m.1)) (n ∙ omega arith), l ∙ long, f k (omega (arith, n)))
