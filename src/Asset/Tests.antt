-- ===== src/Asset/Tests.antt =====
-- asset/path.c on `a/./b/../..//../c`, and asset/image.c on small pixels.
use intense_logic.Base.{◌+◌, ◌*◌, some, false, true, ℕ, ◌≡◌, refl, ap, List, [], ◌∷◌, arith, length}
use intense_logic.Base.{none, replicate, pos, negsuc, Option, ◌==◌, if◌then◌else◌, ◌∷◌}
use intense_logic.Asset.Obj.{Face, Obj, Vertex, num_vertices, mesh_of, push_normal}
use intense_logic.Asset.Obj.Fill.{AllFaces, AllRoom, mesh_of_lem}
use intense_logic.Asset.Obj.Grow.{push_normal_fails}
use intense_logic.Asset.Directory.{plain, union, no_entries, entry, lookup, unite, or_later}
use intense_logic.Asset.Directory.Unite.{lookup-unite}
use intense_logic.Base.{get_elem?, suc}
use intense_logic.Math.Naturals.{naturals}
use intense_logic.Math.Vector.{Vec4}
use intense_logic.Asset.Mesh.{
  Mesh, Attribs, same4, line_end, line_mesh, debug_lines, mesh_new, block_new, mesh_copy, mesh_free,
}
use intense_logic.Asset.Mesh.Lines.{debug_lines_lem}
use intense_logic.Asset.Mesh.Copy.{moved, owns, shares, mesh_new-IsMesh, mesh_copy_lem}
use intense_logic.Asset.Image.{
  Channels, sample_pixel, sample_channel, bgra_to_rgba, from_data, compute_bpp, each_pixel,
}
use intense_logic.Asset.Image.Pixel.{rgba}
use intense_logic.Asset.FilePath.{FilePath, parse_plain, tostr, normalise, split}
use intense_logic.Asset.FilePath.Normal.{IsNormal, parse_plain-IsNormal}
use intense_logic.Asset.FilePath.Print.{parse_plain-tostr}

abbrev text : List ℕ
text = 97 ∷ 47 ∷ 46 ∷ 47 ∷ 98 ∷ 47 ∷ 46 ∷ 46 ∷ 47 ∷ 46 ∷ 46 ∷ 47 ∷ 47 ∷ 46 ∷ 46 ∷ 47 ∷ 99 ∷ []

-- It is `../c`.
nodes_of_text : (parse_plain text).nodes ≡ (46 ∷ 46 ∷ []) ∷ (99 ∷ []) ∷ []
unfolding parse_plain normalise split
nodes_of_text = refl

parse_plain-IsNormal_example : IsNormal (parse_plain text).nodes
parse_plain-IsNormal_example = parse_plain-IsNormal text

parse_plain-tostr_example :
    parse_plain (tostr (parse_plain text))
    ≡ record (parse_plain text) { path = tostr (parse_plain text) }
parse_plain-tostr_example = parse_plain-tostr text (omega (arith, ap length nodes_of_text))

-- Red and blue
abbrev red_blue : Channels
red_blue = record { r = true; g = false; b = true; a = false }

-- Sampling the blue of a red and blue pixel gives its red.
sample_blue :
    sample_pixel red_blue (record { r = false; g = false; b = true; a = false }) (7 ∷ 8 ∷ [])
    ≡ 7 ∷ []
unfolding sample_pixel sample_channel
sample_blue = refl

-- An image of two pixels, with its red and blue swapped.
swapped :
    bgra_to_rgba (record {
      channels = rgba;
      width = 2;
      height = 1;
      depth = 8;
      bpp = 32;
      pixels = 1 ∷ 2 ∷ 3 ∷ 4 ∷ 5 ∷ 6 ∷ 7 ∷ 8 ∷ [];
    })
    ≡ some (record {
      channels = rgba;
      width = 2;
      height = 1;
      depth = 8;
      bpp = 32;
      pixels = 3 ∷ 2 ∷ 1 ∷ 4 ∷ 7 ∷ 6 ∷ 5 ∷ 8 ∷ [];
    })
unfolding bgra_to_rgba from_data compute_bpp each_pixel
swapped = refl

-- A quad whose corners are the vertices 1, 2, 1 and 2, without texture coordinates
abbrev quad : Face ℕ
quad = record {
  num = 4;
  vert = pos 0 ∷ pos 1 ∷ pos 0 ∷ pos 1 ∷ [];
  tex = replicate 4 (negsuc 0);
  norm = replicate 4 (negsuc 0);
  mtl = none;
}

abbrev two_vertices : Obj ℕ ℕ
two_vertices = record {
  vertex = record { mem = 7 ∷ 8 ∷ 0 ∷ []; num = 2; cap = 3 };
  texcoord = record { mem = 0 ∷ []; num = 0; cap = 1 };
  normal = record { mem = 5 ∷ 6 ∷ []; num = 2; cap = 2 };
  face = record { mem = quad ∷ quad ∷ []; num = 1; cap = 2 };
  cur = none;
}

two_vertices-AllRoom :
    AllRoom (record two_vertices { normal = record { mem = 0 ∷ []; num = 0; cap = 1 } })
two_vertices-AllRoom = record {
  vertices = omega arith;
  texcoords = omega arith;
  normals = omega arith;
}

quad-AllFaces : AllFaces (quad ∷ [])
unfolding AllFaces
quad-AllFaces = (record { few = omega arith; verts = refl; texs = refl; norms = refl }, tt)

mesh_of_lem_example :
    (mesh : List (Vertex ℕ ℕ)) × (mesh_of
        (record two_vertices { normal = record { mem = 0 ∷ []; num = 0; cap = 1 } })
      ≡ some (length mesh, mesh))
    × (length mesh ≡ num_vertices (quad ∷ []))
mesh_of_lem_example =
    mesh_of_lem (record two_vertices { normal = record { mem = 0 ∷ []; num = 0; cap = 1 } })
      two_vertices-AllRoom quad-AllFaces

push_normal_fails_example : push_normal 0 two_vertices 9 ≡ none
push_normal_fails_example = push_normal_fails 0 9 two_vertices (omega arith) (omega arith)

-- A plain directory that finds the path's number of nodes, if it is the path's
abbrev find_in : ℕ → FilePath → Option ℕ
find_in n path = if length (path.nodes) == n then some n else none

lookup-unite_example :
    lookup find_in (unite (plain 1) (union (entry (plain 2) no_entries))) (parse_plain text)
    ≡ or_later
        (lookup find_in (union (entry (plain 2) no_entries)) (parse_plain text))
        (lookup find_in (plain 1) (parse_plain text))
lookup-unite_example =
    lookup-unite find_in (parse_plain text) (plain 1) (union (entry (plain 2) no_entries))

abbrev one_vertex : Mesh ℕ
one_vertex = record (line_mesh naturals 40 1 []) {
  num_vertices = 1;
  position = some (record { at = 20; aligned = true; elems = same4 3 ∷ [] });
  normal = some (record { at = 30; aligned = true; elems = same4 1 ∷ [] });
}

debug_lines_lem_example :
    (pts : List (Vec4 ℕ)) × (debug_lines naturals 40 one_vertex 5
      ≡ some (some (line_mesh naturals 40 1 pts)))
    × (length pts ≡ 1 * 2)
    × (get_elem? pts (0 * 2) ≡ some (same4 3))
    × (get_elem? pts (suc (0 * 2)) ≡ some (line_end naturals 5 (same4 3) (same4 1)))
    × (mesh_free true (line_mesh naturals 40 1 pts) ≡ false)
debug_lines_lem_example =
    debug_lines_lem naturals 5 40 one_vertex
      (record { at = 20; aligned = true; elems = same4 3 ∷ [] })
      (record { at = 30; aligned = true; elems = same4 1 ∷ [] }) 0 (same4 3) (same4 1) refl refl
      (omega arith) (omega arith) (omega arith) refl refl

abbrev positions : Attribs
positions = record {
  has_position = true;
  has_texcoord = false;
  has_normal = true;
  has_ambient = false;
  has_diffuse = false;
  has_specular = false;
}

abbrev two_made : Mesh ℕ
two_made = mesh_new naturals (λ k. k) positions 2

two_made-owns : (k : ℕ) → owns two_made (k + 10) ≡ false
unfolding owns mesh_new block_new
two_made-owns k = ground arith

mesh_copy_lem_example :
    (mesh_copy true (λ k. k + 10) two_made ≡ some (moved (λ k. k + 10) two_made))
    × (shares (moved (λ k. k + 10) two_made) two_made ≡ false)
    × (mesh_free true (moved (λ k. k + 10) two_made) ≡ true)
mesh_copy_lem_example =
    mesh_copy_lem (λ k. k + 10) two_made (mesh_new-IsMesh naturals (λ k. k) positions 2)
      two_made-owns
