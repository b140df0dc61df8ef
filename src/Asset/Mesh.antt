-- ===== src/Asset/Mesh.antt =====
-- asset/mesh.c: meshes and the memory of their vertices. A block is at an address, and remembers
-- whether it is from the aligned allocator; `made` says whether that allocator was made before, else
-- it is the default one. The kth array of an operation gets the address `at k`. `none` is an access
-- outside a block.
pub mod Lines
pub mod Copy
use intense_logic.Base.{
  ℕ, zero, suc, ◌+◌, ◌-◌, ◌*◌, ◌/◌, ◌%◌, ◌^◌, ◌≤◌, ◌<◌, min, ◌≡◌, refl, sym, ap, ap₂, ◌∙◌, ◌≢◌, ◌↔◌,
  ◌⊎◌, inl, inr, Bool, true, false, not, ◌&&◌, ◌||◌, Option, none, some, List, [], ◌∷◌, ◌++◌, map,
  append-nil, append_assoc, arith, ltb, leb, ◌==◌, if◌then◌else◌, length, get_elem?, get_or, set,
  take, drop, replicate, copy_at, Bool-cases, dec_lt, ℕ_discrete,
}
use intense_logic.Base.{◌>>=◌}
use intense_logic.Math.Scalar.{Scalar}
use intense_logic.Math.Vector.{Vec4}

-- The modes that the code here sets, of `enum ilA_mesh_primitive`, and any other as its number
pub data Primitive : Type 0 where
  points : Primitive
  lines : Primitive
  triangles : Primitive
  other : ℕ → Primitive

pub record Block (A : Type 0) : Type 0 where
  pub at : ℕ
  pub aligned : Bool
  pub elems : List A

-- `ilA_mesh`
pub record Mesh (F : Type 0) : Type 0 where
  pub mode : Primitive
  pub num_vertices : ℕ
  pub texcoord_size : ℕ
  pub position : Option (Block (Vec4 F))
  pub texcoord : Option (Block (Vec4 F))
  pub normal : Option (Block (Vec4 F))
  pub ambient : Option (Block (Vec4 ℕ))
  pub diffuse : Option (Block (Vec4 ℕ))
  pub specular : Option (Block (Vec4 ℕ))

-- The flags of `enum ilA_mesh_attrib`
pub record Attribs : Type 0 where
  pub has_position : Bool
  pub has_texcoord : Bool
  pub has_normal : Bool
  pub has_ambient : Bool
  pub has_diffuse : Bool
  pub has_specular : Bool

abbrev pub same4 : {A : Type 0} → A → Vec4 A
same4 a = record { x = a; y = a; z = a; w = a }

-- `il_alloc` of an array of `n` elements, if the flag is set; the memory is zeroed.
unfoldable pub block_new : {A : Type 0} → A → Bool → (at n : ℕ) → Option (Block (Vec4 A))
block_new z flag at n =
    if flag then some (record { at = at; aligned = true; elems = replicate n (same4 z) }) else none

-- `ilA_mesh_new`, which makes the aligned allocator if it is not there
unfoldable pub mesh_new : {F : Type 0} → Scalar F → (ℕ → ℕ) → Attribs → ℕ → Mesh F
mesh_new s at f n = record {
  mode = points;
  num_vertices = n;
  texcoord_size = 0;
  position = block_new s.zero f.has_position (at 0) n;
  texcoord = block_new s.zero f.has_texcoord (at 1) n;
  normal = block_new s.zero f.has_normal (at 2) n;
  ambient = block_new 0 f.has_ambient (at 3) n;
  diffuse = block_new 0 f.has_diffuse (at 4) n;
  specular = block_new 0 f.has_specular (at 5) n;
}

-- The copy of one array: the outer `none` is a fault.
unfoldable pub copy_block :
    {A : Type 0} → Bool → (at n : ℕ) → Option (Block A) → Option (Option (Block A))
copy_block made at n none = some none
copy_block made at n (some b) =
    if ltb (length b.elems) n
    then none
    else some (some (record { at = at; aligned = made; elems = take n b.elems }))

-- `ilA_mesh_copy`
unfoldable pub mesh_copy : {F : Type 0} → Bool → (ℕ → ℕ) → Mesh F → Option (Mesh F)
mesh_copy made at m =
    let n = m.num_vertices in
    copy_block made (at 0) n m.position >>= λ position.
    copy_block made (at 1) n m.texcoord >>= λ texcoord.
    copy_block made (at 2) n m.normal >>= λ normal.
    copy_block made (at 3) n m.ambient >>= λ ambient.
    copy_block made (at 4) n m.diffuse >>= λ diffuse.
    copy_block made (at 5) n m.specular >>= λ specular. some (record {
      mode = m.mode;
      num_vertices = n;
      texcoord_size = m.texcoord_size;
      position = position;
      texcoord = texcoord;
      normal = normal;
      ambient = ambient;
      diffuse = diffuse;
      specular = specular;
    })

-- `il_free(aligned_16, …)` of one array: whether the block goes back to where it is from
unfoldable pub gives_back : {A : Type 0} → Bool → Option (Block A) → Bool
gives_back made none = true
gives_back made (some b) = if made then b.aligned else not b.aligned

-- `ilA_mesh_free`: whether all blocks go back to where they are from
unfoldable pub mesh_free : {F : Type 0} → Bool → Mesh F → Bool
mesh_free made m =
    gives_back made m.position
    && gives_back made m.texcoord
    && gives_back made m.normal
    && gives_back made m.ambient
    && gives_back made m.diffuse
    && gives_back made m.specular

module _ {F : Type 0} (s : Scalar F) where
  -- The end of a line; its last component keeps the zero of `calloc`.
  abbrev pub line_end : F → Vec4 F → Vec4 F → Vec4 F
  line_end f p q = record {
    x = s.add p.x (s.mul q.x f);
    y = s.add p.y (s.mul q.y f);
    z = s.add p.z (s.mul q.z f);
    w = s.zero;
  }

  -- The loop of `ilA_mesh_debugLines`
  unfoldable pub line_points : F → ℕ → List (Vec4 F) → List (Vec4 F) → Option (List (Vec4 F))
  line_points f zero ps qs = some []
  line_points f (suc n) [] qs = none
  line_points f (suc n) (p ∷ ps) [] = none
  line_points f (suc n) (p ∷ ps) (q ∷ qs) =
      line_points f n ps qs >>= λ rest. some (p ∷ line_end f p q ∷ rest)

  -- The new mesh: its positions are from `calloc`.
  abbrev pub line_mesh : (at n : ℕ) → List (Vec4 F) → Mesh F
  line_mesh at n pts = record {
    mode = lines;
    num_vertices = n * 2;
    texcoord_size = 0;
    position = some (record { at = at; aligned = false; elems = pts });
    texcoord = none;
    normal = none;
    ambient = none;
    diffuse = none;
    specular = none;
  }

  -- `ilA_mesh_debugLines`; NULL is an inner `none`.
  unfoldable pub debug_lines : (at : ℕ) → Mesh F → F → Option (Option (Mesh F))
  debug_lines at m f = elim (m.position) [
    | none ↦ some none
    | some p ↦ elim (m.normal) [
      | none ↦ some none
      | some q ↦ line_points f m.num_vertices p.elems q.elems >>= λ pts.
          some (some (line_mesh at m.num_vertices pts))
    ]
  ]
