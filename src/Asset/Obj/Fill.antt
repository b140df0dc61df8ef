-- ===== src/Asset/Obj/Fill.antt =====
-- asset/obj.c: the mesh has a vertex for each corner that is written.
use intense_logic.Base.{
  lt→ltb, ℕ, zero, suc, ◌+◌, ◌≤◌, ◌<◌, ◌≡◌, refl, ap, ◌∙◌, inl, inr, Option, none, some, List, [],
  ◌∷◌, ◌++◌, arith, ◌==◌, if◌then◌else◌, length, get_elem?, set, take, replicate, Bool-cases,
  dec_lt,
}
use intense_logic.Base.{ℤ, pos, negsuc, bind_some, length-append, length-set, length-replicate}
use intense_logic.Asset.Obj.{
  Table, Face, Obj, Vertex, pick, up_to, corners, num_vertices, corner, fill_face, fill_mesh,
  mesh_of, blank,
}

-- A face with at most four corners
pub record IsFace {M : Type 0} (f : Face M) : Type 0 where
  pub few : f.num ≤ 4
  pub verts : length f.vert ≡ 4
  pub texs : length f.tex ≡ 4
  pub norms : length f.norm ≡ 4

unfoldable pub AllFaces : {M : Type 0} → List (Face M) → Type 0
AllFaces [] = Unit {0}
AllFaces (f ∷ fs) = IsFace f × AllFaces fs

-- A table with room for one more element
abbrev pub HasRoom : {A : Type 0} → Table A → Type 0
HasRoom t = t.num < length t.mem

element : {A : Type 0} (xs : List A) (i : ℕ) → i < length xs → (x : A) × (get_elem? xs i ≡ some x)
element [] i h = absurd (omega arith)
element (x ∷ xs) zero h = (x, refl)
element (x ∷ xs) (suc i) h = element xs i (omega arith)

pick_runs : {A : Type 0} (t : Table A) (k : ℤ) → HasRoom t → (o : Option A) × (pick t k ≡ some o)
unfolding pick
pick_runs t (negsuc k) h = (none, refl)
pick_runs t (pos k) h = elim (dec_lt t.num k) [
  | yes out ↦ (none, ground arith)
  | no inside ↦ let (x, e) = element t.mem k (omega arith) in (some x, ground (arith, e))
]

length-up_to : (n : ℕ) → length (up_to n) ≡ n
length-up_to zero = refl
length-up_to (suc n) = omega (arith, length-append (up_to n) (n ∷ []), length-up_to n)

AllBelow : ℕ → List ℕ → Type 0
AllBelow n [] = Unit {0}
AllBelow n (x ∷ xs) = (x < n) × AllBelow n xs

AllBelow-append : (n : ℕ) (xs ys : List ℕ) → AllBelow n xs → AllBelow n ys → AllBelow n (xs ++ ys)
unfolding AllBelow
AllBelow-append n [] ys h k = k
AllBelow-append n (x ∷ xs) ys h k = (h.0, AllBelow-append n xs ys h.1 k)

AllBelow-up_to : (k n : ℕ) → k ≤ n → AllBelow n (up_to k)
unfolding AllBelow
AllBelow-up_to zero n h = tt
AllBelow-up_to (suc k) n h =
    AllBelow-append n (up_to k) (k ∷ []) (AllBelow-up_to k n (omega arith)) (omega arith, tt)

corners-below : {M : Type 0} (f : Face M) → IsFace f → AllBelow 4 (corners f)
unfolding corners AllBelow
corners-below f v = elim (Bool-cases (f.num == 4)) [
  | inl e ↦
      rw e
        (omega arith, (omega arith, (omega arith, (omega arith, (omega arith, (omega arith, tt))))))
  | inr e ↦ rw e (AllBelow-up_to f.num 4 v.few)
]

length-corners : {M : Type 0} (f : Face M) → length (corners f) ≡ (if f.num == 4 then 6 else f.num)
unfolding corners
length-corners f = elim (Bool-cases (f.num == 4)) [
  | inl e ↦ rw e refl
  | inr e ↦ rw e (length-up_to f.num)
]

-- No vector that the file names as one past the last is at the end of its storage.
pub record AllRoom {V M : Type 0} (o : Obj V M) : Type 0 where
  pub vertices : HasRoom o.vertex
  pub texcoords : HasRoom o.texcoord
  pub normals : HasRoom o.normal

module _ {V M : Type 0} (o : Obj V M) (room : AllRoom o) where
  corner_runs :
      (f : Face M) (idx : ℕ) → IsFace f → idx < 4 → (x : Vertex V M) × (corner o f idx ≡ some x)
  unfolding corner
  corner_runs f idx v h =
      let (a, ea) = element f.vert idx (omega (arith, v.verts)) in
      let (b, eb) = element f.tex idx (omega (arith, v.texs)) in
      let (c, ec) = element f.norm idx (omega (arith, v.norms)) in
      let (p, ep) = pick_runs o.vertex a room.vertices in
      let (q, eq) = pick_runs o.texcoord b room.texcoords in
      let (r, er) = pick_runs o.normal c room.normals in
      (
        record { position = p; texcoord = q; normal = r; material = f.mtl },
        rw (ea, ep, eb, eq, ec, er) refl,
      )

  fill_face_runs :
      (f : Face M) (js : List ℕ) (v : ℕ) (mesh : List (Vertex V M))
      → IsFace f
      → AllBelow 4 js
      → v + length js ≤ length mesh
      → (mesh' : List (Vertex V M)) × (fill_face o f js v mesh ≡ some (v + length js, mesh'))
        × (length mesh' ≡ length mesh)
  unfolding fill_face AllBelow
  fill_face_runs f [] v mesh w b h =
      (mesh, ap (λ n. some (n, mesh)) {x = v} {y = v + 0} (omega arith), refl)
  fill_face_runs f (idx ∷ js) v mesh w b h =
      let (x, e) = corner_runs f idx w b.0 in
      let (mesh', r, l) =
        fill_face_runs f js (v + 1) (set mesh v x) w b.1 (omega (arith, length-set mesh v x)) in
      (
        mesh',
        rw (lt→ltb v (length mesh) (omega arith), e)
            (r
              ∙ ap (λ n. some (n, mesh')) {x = v + 1 + length js} {y = v + suc (length js)}
                  (omega arith)),
        l ∙ length-set mesh v x,
      )

  fill_mesh_runs :
      (fs : List (Face M)) (v : ℕ) (mesh : List (Vertex V M))
      → AllFaces fs
      → v + num_vertices fs ≤ length mesh
      → (mesh' : List (Vertex V M)) × (fill_mesh o fs v mesh ≡ some (v + num_vertices fs, mesh'))
        × (length mesh' ≡ length mesh)
  unfolding fill_mesh AllFaces num_vertices
  fill_mesh_runs [] v mesh w h =
      (mesh, ap (λ n. some (n, mesh)) {x = v} {y = v + 0} (omega arith), refl)
  fill_mesh_runs (f ∷ fs) v mesh w h =
      let (mesh1, r1, l1) =
        fill_face_runs f (corners f) v mesh w.0 (corners-below f w.0)
          (omega (arith, length-corners f)) in
      let (mesh2, r2, l2) =
        fill_mesh_runs fs (v + length (corners f)) mesh1 w.1
          (omega (arith, l1, length-corners f)) in
      (
        mesh2,
        bind_some _ r1
            ∙ r2
            ∙ ap (λ n. some (n, mesh2)) {x = v + length (corners f) + num_vertices fs}
                {y = v + ((if f.num == 4 then 6 else f.num) + num_vertices fs)}
                (omega (arith, length-corners f)),
        l2 ∙ l1,
      )

  -- The mesh of an obj file is filled without an access outside its storage or that of the tables,
  -- with as many vertices as were allocated: a face has at most four corners, and each table has
  -- room for one more element.
  pub mesh_of_lem :
      AllFaces (take (o.face).num (o.face).mem)
      → (mesh : List (Vertex V M)) × (mesh_of o ≡ some (length mesh, mesh))
        × (length mesh ≡ num_vertices (take (o.face).num (o.face).mem))
  unfolding mesh_of
  mesh_of_lem w =
      let fs = take (o.face).num (o.face).mem in
      let start = replicate {A = Vertex V M} (num_vertices fs) blank in
      let (mesh, r, l) =
        fill_mesh_runs fs 0 start w
          (omega (arith, length-replicate {A = Vertex V M} (num_vertices fs) blank)) in
      (
        mesh,
        r
            ∙ ap (λ n. some (n, mesh)) {x = 0 + num_vertices fs} {y = length mesh}
                (omega (arith, l, length-replicate {A = Vertex V M} (num_vertices fs) blank)),
        l ∙ length-replicate (num_vertices fs) blank,
      )
