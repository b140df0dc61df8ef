-- ===== src/Asset/Mesh/Lines.antt =====
-- asset/mesh.c: the lines along the normals of a mesh.
use intense_logic.Base.{
  ℕ, zero, suc, ◌*◌, ◌≤◌, ◌<◌, ◌≡◌, refl, ap, ap₂, ◌∙◌, true, false, some, List, [], ◌∷◌, arith,
  length, get_elem?,
}
use intense_logic.Base.{bind_some, some-injective}
use intense_logic.Math.Scalar.{Scalar}
use intense_logic.Math.Vector.{Vec4}
use intense_logic.Asset.Mesh.{
  Block, Mesh, mesh_free, gives_back, line_end, line_points, line_mesh, debug_lines,
}

module _ {F : Type 0} (s : Scalar F) (f : F) where
  -- The points at twice an index, and after it, are a vertex and the end of its line.
  AtEach : ℕ → List (Vec4 F) → List (Vec4 F) → List (Vec4 F) → Type 0
  AtEach n ps qs pts =
      (i : ℕ) (p q : Vec4 F)
      → i < n
      → get_elem? ps i ≡ some p
      → get_elem? qs i ≡ some q
      → (get_elem? pts (i * 2) ≡ some p) × (get_elem? pts (suc (i * 2)) ≡ some (line_end s f p q))

  AtEach-more :
      (n : ℕ) (p q : Vec4 F) (ps qs pts : List (Vec4 F))
      → AtEach n ps qs pts
      → AtEach (suc n) (p ∷ ps) (q ∷ qs) (p ∷ line_end s f p q ∷ pts)
  unfolding AtEach
  AtEach-more n p q ps qs pts at zero p' q' h ep eq =
      (ep, ap₂ (λ a b. some (line_end s f a b)) (some-injective ep) (some-injective eq))
  AtEach-more n p q ps qs pts at (suc i) p' q' h ep eq =
      let (first, second) = at i p' q' (omega arith) ep eq in
      let all = p ∷ line_end s f p q ∷ pts in
      (
        ap (get_elem? all) {x = suc i * 2} {y = suc (suc (i * 2))} (omega arith) ∙ first,
        ap (get_elem? all) {x = suc (suc i * 2)} {y = suc (suc (suc (i * 2)))} (omega arith)
            ∙ second,
      )

  line_points_runs :
      (n : ℕ) (ps qs : List (Vec4 F))
      → n ≤ length ps
      → n ≤ length qs
      → (pts : List (Vec4 F)) × (line_points s f n ps qs ≡ some pts)
        × (length pts ≡ n * 2)
        × AtEach n ps qs pts
  unfolding line_points AtEach
  line_points_runs zero ps qs a b = ([], refl, refl, λ i p q h. absurd (omega arith))
  line_points_runs (suc n) [] qs a b = absurd (omega arith)
  line_points_runs (suc n) (p ∷ ps) [] a b = absurd (omega arith)
  line_points_runs (suc n) (p ∷ ps) (q ∷ qs) a b =
      let (pts, e, l, at) = line_points_runs n ps qs (omega arith) (omega arith) in
      (p ∷ line_end s f p q ∷ pts, bind_some _ e, omega (arith, l), AtEach-more n p q ps qs pts at)

  -- The debug lines of a mesh with a position and a normal for each vertex: two points for each, the
  -- vertex and the end of its line, in the order of the vertices. Destroying that mesh gives memory
  -- to an allocator that it is not from.
  pub debug_lines_lem :
      (at : ℕ) (m : Mesh F) (position normal : Block (Vec4 F)) (i : ℕ) (p q : Vec4 F)
      → m.position ≡ some position
      → m.normal ≡ some normal
      → m.num_vertices ≤ length position.elems
      → m.num_vertices ≤ length normal.elems
      → i < m.num_vertices
      → get_elem? position.elems i ≡ some p
      → get_elem? normal.elems i ≡ some q
      → (pts : List (Vec4 F)) × (debug_lines s at m f
          ≡ some (some (line_mesh s at m.num_vertices pts)))
        × (length pts ≡ m.num_vertices * 2)
        × (get_elem? pts (i * 2) ≡ some p)
        × (get_elem? pts (suc (i * 2)) ≡ some (line_end s f p q))
        × (mesh_free true (line_mesh s at m.num_vertices pts) ≡ false)
  unfolding debug_lines mesh_free gives_back AtEach
  debug_lines_lem at m position normal i p q ep en lp ln h atp atq =
      let (pts, e, l, each) = line_points_runs m.num_vertices position.elems normal.elems lp ln in
      let (first, second) = each i p q h atp atq in
      (pts, rw (ep, en, e) refl, l, first, second, refl)
