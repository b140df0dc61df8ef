-- ===== src/Asset/Obj.antt =====
-- asset/obj.c: reading of obj files. `strtof` and `strtol` are the C library's, a parameter; materials
-- come from `usemtl`, whose library is another file. `none` is an access outside the storage.
pub mod Grow
pub mod Fill
use intense_logic.Base.{◌=b◌}
use intense_logic.Base.{
  ℕ, zero, suc, ◌+◌, ◌-◌, ◌*◌, ◌/◌, ◌%◌, ◌^◌, ◌≤◌, ◌<◌, min, ◌≡◌, refl, sym, ap, ap₂, ◌∙◌, ◌≢◌, ◌↔◌,
  ◌⊎◌, inl, inr, Bool, true, false, not, ◌&&◌, ◌||◌, Option, none, some, List, [], ◌∷◌, ◌++◌, map,
  append-nil, append_assoc, arith, ltb, leb, ◌==◌, if◌then◌else◌, length, get_elem?, get_or, set,
  take, drop, replicate, copy_at, Bool-cases, dec_lt, ℕ_discrete,
}
use intense_logic.Base.{◌>>=◌, ℤ, pos, negsuc}

-- The C library's conversions, each with whether it sets `errno`; `strtol` is already narrowed to int.
pub record Numbers (F : Type 0) : Type 0 where
  pub strtof : List ℕ → F × Bool
  pub strtol : List ℕ → ℤ × Bool

-- One of the growing tables of `struct obj`, for example `num_vertex`, `vertex_cap`, `vertex`
pub record Table (F : Type 0) : Type 0 where
  pub mem : List F
  pub num : ℕ
  pub cap : ℕ

-- `struct face`: an index that is absent is -1. `M` is the type of materials.
pub record Face (M : Type 0) : Type 0 where
  pub num : ℕ
  pub vert : List ℤ
  pub tex : List ℤ
  pub norm : List ℤ
  pub mtl : Option M

-- `struct obj`: `V` is `float[4]`.
pub record Obj (V M : Type 0) : Type 0 where
  pub vertex : Table V
  pub texcoord : Table V
  pub normal : Table V
  pub face : Table (Face M)
  pub cur : Option M

-- `strsep` with one separator: the word, and what is left, `none` for NULL.
unfoldable pub strsep : ℕ → List ℕ → List ℕ × Option (List ℕ)
strsep sep [] = ([], none)
strsep sep (c ∷ cs) =
    let (word, rest) = strsep sep cs in if c == sep then ([], some cs) else (c ∷ word, rest)

module _ {A : Type 0} (z : A) where
  -- `resize`, in elements: zeroed storage, and the elements in use copied to it.
  unfoldable pub resize : List A → ℕ → ℕ → Option (List A)
  resize src size newsize =
      if ltb newsize size || ltb (length src) size
      then none
      else some (copy_at (replicate newsize z) 0 src size)

  abbrev pub stored : ℕ → A → ℕ → List A → Option (Table A)
  stored n x cap mem =
      if ltb n (length mem)
      then some (record { mem = set mem n x; num = n + 1; cap = cap })
      else none

  -- The end of each branch of `parse_line`: the capacity doubles, the storage grows to `newsize`.
  unfoldable pub push : ℕ → Table A → A → Option (Table A)
  push newsize t x =
      if leb t.cap t.num
      then (resize t.mem t.num newsize >>= λ mem. stored t.num x (t.cap * 2) mem)
      else stored t.num x t.cap t.mem

module _ {V M : Type 0} (v : V) where
  unfoldable pub push_vertex : Obj V M → V → Option (Obj V M)
  push_vertex o x = push v (o.vertex.cap * 2) o.vertex x >>= λ t. some (record o { vertex = t })

  unfoldable pub push_texcoord : Obj V M → V → Option (Obj V M)
  push_texcoord o x =
      push v (o.texcoord.cap * 2) o.texcoord x >>= λ t. some (record o { texcoord = t })

  -- The size of the normals is computed from the capacity of the texture coordinates.
  unfoldable pub push_normal : Obj V M → V → Option (Obj V M)
  push_normal o x = push v (o.texcoord.cap * 2) o.normal x >>= λ t. some (record o { normal = t })

unfoldable pub push_face : {V M : Type 0} → Face M → Obj V M → Face M → Option (Obj V M)
push_face f o x = push f (o.face.cap * 2) o.face x >>= λ t. some (record o { face = t })

module _ {F : Type 0} (c : Numbers F) where
  -- The loop over the components of "v", "vt" or "vn": the vector, and the last component that was
  -- not read.
  unfoldable pub read_vec : ℕ → ℕ → Option (List ℕ) → List F → Option ℕ → List F × Option ℕ
  read_vec zero i s vec err = (vec, err)
  read_vec (suc n) i none vec err = (vec, err)
  read_vec (suc n) i (some s) vec err =
      let (word, rest) = strsep 32 s in
      let (x, bad) = c.strtof word in
      read_vec n (i + 1) rest (set vec i x) (if bad then some i else err)

  -- `id += num` for a negative index, then `id - 1`
  unfoldable pub index_of : ℤ → ℕ → ℤ
  index_of (pos zero) num = negsuc 0
  index_of (pos (suc k)) num = pos k
  index_of (negsuc k) num = if leb (k + 2) num then pos (num - (k + 2)) else negsuc (k + 1 - num)

  -- One of the numbers between slashes
  unfoldable pub read_index : ℕ → Option (List ℕ) → ℤ × Option (List ℕ)
  read_index num none = (negsuc 0, none)
  read_index num (some s) = let (word, rest) = strsep 47 s in (index_of (c.strtol word).0 num, rest)

  -- The loop over the corners of "f"
  unfoldable pub read_face : {V M : Type 0} → ℕ → ℕ → Option (List ℕ) → Obj V M → Face M → Face M
  read_face zero i s o face = record face { num = i }
  read_face (suc n) i none o face = record face { num = i }
  read_face (suc n) i (some s) o face =
      let (word, rest) = strsep 32 s in
      let (a, s1) = read_index o.vertex.num (some word) in
      let (b, s2) = read_index o.texcoord.num s1 in
      let (d, s3) = read_index o.normal.num s2 in
      read_face n (i + 1) rest o
        (record face { vert = set face.vert i a; tex = set face.tex i b; norm = set face.norm i d })

-- A vertex of the mesh: what is not set keeps what the allocation gave.
pub record Vertex (V M : Type 0) : Type 0 where
  pub position : Option V
  pub texcoord : Option V
  pub normal : Option V
  pub material : Option M

-- A corner's vector: an index below 0 or above the number is left out, any other is read.
unfoldable pub pick : {A : Type 0} → Table A → ℤ → Option (Option A)
pick t (negsuc k) = some none
pick t (pos k) = if ltb t.num k then some none else (get_elem? t.mem k >>= λ x. some (some x))

-- The corners of a face as triangles, `quad_to_tri` for four
abbrev up_to : ℕ → List ℕ
up_to zero = []
up_to (suc n) = up_to n ++ (n ∷ [])

unfoldable pub corners : {M : Type 0} → Face M → List ℕ
corners face = if face.num == 4 then 0 ∷ 1 ∷ 2 ∷ 2 ∷ 3 ∷ 0 ∷ [] else up_to face.num

-- `num_vertices`
unfoldable pub num_vertices : {M : Type 0} → List (Face M) → ℕ
num_vertices [] = 0
num_vertices (f ∷ fs) = (if f.num == 4 then 6 else f.num) + num_vertices fs

module _ {V M : Type 0} where
  unfoldable pub corner : Obj V M → Face M → ℕ → Option (Vertex V M)
  corner o f idx = get_elem? f.vert idx >>= λ vert. pick o.vertex vert >>= λ position.
      get_elem? f.tex idx >>= λ tex. pick o.texcoord tex >>= λ texcoord.
      get_elem? f.norm idx >>= λ norm. pick o.normal norm >>= λ normal.
      some (record { position = position; texcoord = texcoord; normal = normal; material = f.mtl })

  -- The loop over the corners of a face, which writes to the mesh at `v` and counts `v` up
  unfoldable pub fill_face :
      Obj V M → Face M → List ℕ → ℕ → List (Vertex V M) → Option (ℕ × List (Vertex V M))
  fill_face o f [] v mesh = some (v, mesh)
  fill_face o f (idx ∷ js) v mesh =
      if ltb v (length mesh)
      then (corner o f idx >>= λ x. fill_face o f js (v + 1) (set mesh v x))
      else none

  unfoldable pub fill_mesh :
      Obj V M → List (Face M) → ℕ → List (Vertex V M) → Option (ℕ × List (Vertex V M))
  fill_mesh o [] v mesh = some (v, mesh)
  fill_mesh o (f ∷ fs) v mesh =
      fill_face o f (corners f) v mesh >>= λ (v', mesh'). fill_mesh o fs v' mesh'

  abbrev pub blank : Vertex V M
  blank = record { position = none; texcoord = none; normal = none; material = none }

  -- The end of `ilA_mesh_parseObj`
  unfoldable pub mesh_of : Obj V M → Option (ℕ × List (Vertex V M))
  mesh_of o =
      let faces = take (o.face).num (o.face).mem in
      fill_mesh o faces 0 (replicate (num_vertices faces) blank)

-- "v", "vt", "vn", "f", "usemtl" and "#" as bytes
abbrev v_word : List ℕ
v_word = 118 ∷ []

abbrev vt_word : List ℕ
vt_word = 118 ∷ 116 ∷ []

abbrev vn_word : List ℕ
vn_word = 118 ∷ 110 ∷ []

abbrev f_word : List ℕ
f_word = 102 ∷ []

abbrev usemtl_word : List ℕ
usemtl_word = 117 ∷ 115 ∷ 101 ∷ 109 ∷ 116 ∷ 108 ∷ []

module _ {F M : Type 0} (c : Numbers F) (zero_f one_f : F) (find_mtl : List ℕ → Option M) where
  abbrev no_vec : List F
  no_vec = zero_f ∷ zero_f ∷ zero_f ∷ zero_f ∷ []

  abbrev start_vec : List F
  start_vec = zero_f ∷ zero_f ∷ zero_f ∷ one_f ∷ []

  abbrev no_face : Face M
  no_face = record {
    num = 0;
    vert = replicate 4 (pos 0);
    tex = replicate 4 (pos 0);
    norm = replicate 4 (pos 0);
    mtl = none;
  }

  -- The name after "usemtl"; the code takes it to be there.
  abbrev use_mtl : Obj (List F) M → Option (List ℕ) → Option (Obj (List F) M)
  use_mtl o none = none
  use_mtl o (some s) = some (record o { cur = find_mtl (strsep 32 s).0 })

  -- `parse_line`, without the report of errors and "mtllib", which reads another file; any other word
  -- changes nothing.
  unfoldable pub parse_line : Obj (List F) M → List ℕ → Option (Obj (List F) M)
  parse_line o line =
      let (word, rest) = strsep 32 line in
      if word =b v_word
      then push_vertex no_vec o (read_vec c 4 0 rest start_vec none).0
      else if word =b vt_word
      then push_texcoord no_vec o (read_vec c 3 0 rest start_vec none).0
      else if word =b vn_word
      then push_normal no_vec o (read_vec c 3 0 rest start_vec none).0
      else if word =b f_word
      then push_face no_face o (record (read_face c 4 0 rest o no_face) { mtl = o.cur })
      else if word =b usemtl_word
      then use_mtl o rest
      else some o

  -- The loop of `ilA_mesh_parseObj` over the lines
  unfoldable pub parse_lines : Obj (List F) M → List (List ℕ) → Option (Obj (List F) M)
  parse_lines o [] = some o
  parse_lines o (line ∷ rest) = parse_line o line >>= λ o'. parse_lines o' rest
