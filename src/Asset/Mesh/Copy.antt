-- ===== src/Asset/Mesh/Copy.antt =====
-- asset/mesh.c: copies of meshes.
use intense_logic.Base.{
  ℕ, ◌≡◌, refl, sym, Bool, true, false, Option, none, some, arith, length, ◌==◌, ◌||◌,
}
use intense_logic.Base.{take_all, le→ltb_false, length-replicate}
use intense_logic.Math.Scalar.{Scalar}
use intense_logic.Asset.Mesh.{
  Block, Mesh, Attribs, mesh_new, block_new, copy_block, mesh_copy, mesh_free, gives_back, same4,
}

-- The arrays of a mesh that is made as the code makes it: aligned, with an element for each vertex
unfoldable pub IsBlock : {A : Type 0} → ℕ → Option (Block A) → Type 0
IsBlock n none = Unit {0}
IsBlock n (some b) = (b.aligned ≡ true) × (length b.elems ≡ n)

pub record IsMesh {F : Type 0} (m : Mesh F) : Type 0 where
  pub position : IsBlock m.num_vertices m.position
  pub texcoord : IsBlock m.num_vertices m.texcoord
  pub normal : IsBlock m.num_vertices m.normal
  pub ambient : IsBlock m.num_vertices m.ambient
  pub diffuse : IsBlock m.num_vertices m.diffuse
  pub specular : IsBlock m.num_vertices m.specular

abbrev pub moved_block : {A : Type 0} → ℕ → Option (Block A) → Option (Block A)
moved_block at none = none
moved_block at (some b) = some (record b { at = at })

-- The same mesh with its arrays at other addresses
abbrev pub moved : {F : Type 0} → (ℕ → ℕ) → Mesh F → Mesh F
moved at m = record m {
  position = moved_block (at 0) m.position;
  texcoord = moved_block (at 1) m.texcoord;
  normal = moved_block (at 2) m.normal;
  ambient = moved_block (at 3) m.ambient;
  diffuse = moved_block (at 4) m.diffuse;
  specular = moved_block (at 5) m.specular;
}

-- Whether an array is at the address
abbrev pub is_at : {A : Type 0} → ℕ → Option (Block A) → Bool
is_at p none = false
is_at p (some b) = b.at == p

-- Whether an array of the mesh is at the address
unfoldable pub owns : {F : Type 0} → Mesh F → ℕ → Bool
owns m p =
    is_at p m.position
    || is_at p m.texcoord
    || is_at p m.normal
    || is_at p m.ambient
    || is_at p m.diffuse
    || is_at p m.specular

abbrev pub array_shared : {A F : Type 0} → Option (Block A) → Mesh F → Bool
array_shared none m = false
array_shared (some b) m = owns m b.at

-- Whether an array of one mesh is at the address of an array of the other
unfoldable pub shares : {F : Type 0} → Mesh F → Mesh F → Bool
shares k m =
    array_shared k.position m
    || array_shared k.texcoord m
    || array_shared k.normal m
    || array_shared k.ambient m
    || array_shared k.diffuse m
    || array_shared k.specular m

copy_block_moved :
    {A : Type 0} (at n : ℕ) (b : Option (Block A))
    → IsBlock n b
    → copy_block true at n b ≡ some (moved_block at b)
unfolding copy_block IsBlock
copy_block_moved at n none h = refl
copy_block_moved at n (some b) (e, l) =
    rw
      (
        le→ltb_false (length b.elems) n (omega (arith, l)),
        take_all n b.elems (omega (arith, l)),
        sym e,
      )
      refl

moved_block-array_shared :
    {A F : Type 0} (at : ℕ) (b : Option (Block A)) (m : Mesh F)
    → owns m at ≡ false
    → array_shared (moved_block at b) m ≡ false
moved_block-array_shared at none m e = refl
moved_block-array_shared at (some b) m e = e

block_new-IsBlock :
    {A : Type 0} (z : A) (flag : Bool) (at n : ℕ) → IsBlock n (block_new z flag at n)
unfolding block_new IsBlock
block_new-IsBlock z true at n = (refl, length-replicate n (same4 z))
block_new-IsBlock z false at n = tt

moved_block-gives_back :
    {A : Type 0} (at n : ℕ) (b : Option (Block A))
    → IsBlock n b
    → gives_back true (moved_block at b) ≡ true
unfolding gives_back IsBlock
moved_block-gives_back at n none h = refl
moved_block-gives_back at n (some b) (e, l) = e

pub mesh_new-IsMesh :
    {F : Type 0} (s : Scalar F) (at : ℕ → ℕ) (f : Attribs) (n : ℕ) → IsMesh (mesh_new s at f n)
unfolding mesh_new
mesh_new-IsMesh s at f n = record {
  position = block_new-IsBlock s.zero f.has_position (at 0) n;
  texcoord = block_new-IsBlock s.zero f.has_texcoord (at 1) n;
  normal = block_new-IsBlock s.zero f.has_normal (at 2) n;
  ambient = block_new-IsBlock 0 f.has_ambient (at 3) n;
  diffuse = block_new-IsBlock 0 f.has_diffuse (at 4) n;
  specular = block_new-IsBlock 0 f.has_specular (at 5) n;
}

-- A mesh whose arrays are aligned and have an element for each vertex is copied whole, to blocks of
-- the copy's own: none of its arrays is one of the mesh, and all of them go back to the allocator
-- that they are from when the copy is destroyed. An allocation gives an address that the mesh does
-- not have.
pub mesh_copy_lem :
    {F : Type 0} (at : ℕ → ℕ) (m : Mesh F)
    → IsMesh m
    → ((k : ℕ) → owns m (at k) ≡ false)
    → (mesh_copy true at m ≡ some (moved at m))
      × (shares (moved at m) m ≡ false)
      × (mesh_free true (moved at m) ≡ true)
unfolding mesh_copy mesh_free shares
mesh_copy_lem at m w fresh =
    let n = m.num_vertices in
    (
      rw
          (
            copy_block_moved (at 0) n m.position w.position,
            copy_block_moved (at 1) n m.texcoord w.texcoord,
            copy_block_moved (at 2) n m.normal w.normal,
            copy_block_moved (at 3) n m.ambient w.ambient,
            copy_block_moved (at 4) n m.diffuse w.diffuse,
            copy_block_moved (at 5) n m.specular w.specular,
          )
          refl,
      rw
          (
            moved_block-array_shared (at 0) m.position m (fresh 0),
            moved_block-array_shared (at 1) m.texcoord m (fresh 1),
            moved_block-array_shared (at 2) m.normal m (fresh 2),
            moved_block-array_shared (at 3) m.ambient m (fresh 3),
            moved_block-array_shared (at 4) m.diffuse m (fresh 4),
            moved_block-array_shared (at 5) m.specular m (fresh 5),
          )
          refl,
      rw
          (
            moved_block-gives_back (at 0) n m.position w.position,
            moved_block-gives_back (at 1) n m.texcoord w.texcoord,
            moved_block-gives_back (at 2) n m.normal w.normal,
            moved_block-gives_back (at 3) n m.ambient w.ambient,
            moved_block-gives_back (at 4) n m.diffuse w.diffuse,
            moved_block-gives_back (at 5) n m.specular w.specular,
          )
          refl,
    )
