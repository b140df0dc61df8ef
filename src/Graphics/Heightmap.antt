-- ===== src/Graphics/Heightmap.antt =====
-- graphics/heightmap.c: the list of positionables of a heightmap, and its mesh. `none` is an access
-- outside the storage of the mesh.
pub mod Cells
use intense_logic.Base.{
  ℕ, zero, suc, ◌+◌, ◌-◌, ◌*◌, ◌/◌, ◌%◌, ◌^◌, ◌≤◌, ◌<◌, min, ◌≡◌, refl, sym, ap, ap₂, ◌∙◌, ◌≢◌, ◌↔◌,
  ◌⊎◌, inl, inr, Bool, true, false, not, ◌&&◌, ◌||◌, Option, none, some, List, [], ◌∷◌, ◌++◌, map,
  append-nil, append_assoc, arith, ltb, leb, ◌==◌, if◌then◌else◌, length, get_elem?, get_or, set,
  take, drop, replicate, copy_at, Bool-cases, dec_lt, ℕ_discrete,
}
use mathlib.Core.Option
use intense_logic.Base.{◌>>=◌}
use intense_logic.Array.{Array, append}
use intense_logic.Graphics.Passes.{PositionId, Pass, Sent, del_entry, pass_message, pass_push_msg}
use intense_logic.Graphics.Passes.Kinds.{pos_eq, no_position, deleted}

-- `heightmap_add_positionable`
unfoldable pub heightmap_add_positionable : Array PositionId → PositionId → Array PositionId
heightmap_add_positionable a p = append no_position a p

-- `heightmap_del_positionable`, and whether it found the positionable
unfoldable pub heightmap_del_positionable :
    Array PositionId → PositionId → Option (Bool × Array PositionId)
heightmap_del_positionable a p = del_entry (λ q. pos_eq q p) a

-- `heightmap_message`
unfoldable pub heightmap_message : Pass PositionId → ℕ → PositionId → Option (Pass PositionId)
heightmap_message p type v =
    pass_message heightmap_add_positionable (λ a r. deleted (heightmap_del_positionable a r)) p type
      v

-- `heightmap_push_msg`
unfoldable pub heightmap_push_msg :
    Pass PositionId → ℕ → PositionId → Option (Pass PositionId × Sent PositionId)
heightmap_push_msg p type v =
    pass_push_msg heightmap_add_positionable (λ a r. deleted (heightmap_del_positionable a r)) p
      type v

-- A vertex: where it is on the grid, before the division by the size, and its texture coordinates
pub record Vertex : Type 0 where
  pub px : ℕ
  pub py : ℕ
  pub tx : ℕ
  pub ty : ℕ

-- The two triangles of one cell
unfoldable pub cell : ℕ → ℕ → List Vertex
cell x y =
    record { px = x; py = y; tx = x; ty = y }
    ∷ record { px = x; py = y - 1; tx = x; ty = y }
    ∷ record { px = x - 1; py = y; tx = x; ty = y }
    ∷ record { px = x; py = y - 1; tx = x; ty = y }
    ∷ record { px = x - 1; py = y - 1; tx = x; ty = y }
    ∷ record { px = x - 1; py = y; tx = x; ty = y }
    ∷ []

-- The mesh's storage, filled so far, and `i`
abbrev pub Filled : Type 0
Filled = ℕ × List (Option Vertex)

-- `memcpy` of one vertex after the other, from `i` on
unfoldable pub put : List Vertex → Filled → Option Filled
put [] m = some m
put (v ∷ vs) (i, mesh) = if ltb i (length mesh) then put vs (i + 1, set mesh i (some v)) else none

-- The body of the loops: `i` is an `unsigned`, and `i += 6` wraps.
unfoldable pub put_cell : (x y : ℕ) → Filled → Option Filled
put_cell x y m = put (cell x y) m >>= λ (i, mesh). some (i % 2 ^ 32, mesh)

-- The loop over the columns, with as many rounds as are left
unfoldable pub row : ℕ → (x y : ℕ) → Filled → Option Filled
row zero x y m = some m
row (suc n) x y m = put_cell x y m >>= λ m'. row n (x + 1) y m'

-- The loop over the rows
unfoldable pub rows : ℕ → (w y : ℕ) → Filled → Option Filled
rows zero w y m = some m
rows (suc n) w y m = row (w - 1) 1 y m >>= λ m'. rows n w (y + 1) m'

-- The mesh of `ilG_heightmap_new`; `w * h * 6` is an `unsigned`, which wraps.
unfoldable pub heightmap_mesh : (w h : ℕ) → Option Filled
heightmap_mesh w h = rows (h - 1) w 1 (0, replicate (w * h * 6 % 2 ^ 32) none)
