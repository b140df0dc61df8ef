-- ===== src/Asset/Image.antt =====
-- asset/image.c: pixels of up to four channels of one byte each. Reading past the data gives 0.
pub mod Pixel
use intense_logic.Base.{
  ℕ, zero, suc, ◌+◌, ◌-◌, ◌*◌, ◌/◌, ◌%◌, ◌^◌, ◌≤◌, ◌<◌, min, ◌≡◌, refl, sym, ap, ap₂, ◌∙◌, ◌≢◌, ◌↔◌,
  ◌⊎◌, inl, inr, Bool, true, false, not, ◌&&◌, ◌||◌, Option, none, some, List, [], ◌∷◌, ◌++◌, map,
  append-nil, append_assoc, arith, ltb, leb, ◌==◌, if◌then◌else◌, length, get_elem?, get_or, set,
  take, drop, replicate, copy_at, Bool-cases, dec_lt, ℕ_discrete,
}
use intense_logic.Base.{for_to}
use Prim.Native.Nat.{bit_and}
use mathlib.Core.Option

-- `enum ilA_imgchannels`, a set of flags.
pub record Channels : Type 0 where
  pub r : Bool
  pub g : Bool
  pub b : Bool
  pub a : Bool

-- `ilA_img`
pub record Img : Type 0 where
  pub channels : Channels
  pub width : ℕ
  pub height : ℕ
  pub depth : ℕ
  pub bpp : ℕ
  pub pixels : List ℕ

abbrev pub bit : Bool → ℕ
bit true = 1
bit false = 0

-- How many channels there are.
abbrev pub count : Channels → ℕ
count c = bit c.r + bit c.g + bit c.b + bit c.a

-- `compute_bpp`
unfoldable pub compute_bpp : Channels → ℕ → ℕ
compute_bpp c depth = count c * depth

-- `ilA_img_fromdata`: `none` is a read past the data.
unfoldable pub from_data : Option (List ℕ) → ℕ → ℕ → ℕ → Channels → Option Img
from_data bytes w h depth channels =
    let bpp = compute_bpp channels depth in
    let size = bpp * w * h % 2 ^ 32 / 8 in
    let blank : Img = record {
      channels = channels;
      width = w;
      height = h;
      depth = depth;
      bpp = bpp;
      pixels = replicate size 0;
    } in
    elim bytes [
      | none ↦ some blank
      | some d ↦ if ltb (length d) size then none else some (record blank { pixels = take size d })
    ]

-- `ilA_img_copy`
unfoldable pub img_copy : Img → Option Img
img_copy old =
    let size = old.bpp * old.width * old.height % 2 ^ 32 / 8 in
    if ltb (length old.pixels) size
    then none
    else some (record old { pixels = take size old.pixels })

-- `*src_ptr` and `src_ptr++`
abbrev pub first : List ℕ → ℕ
first [] = 0
first (c ∷ s) = c

-- A channel of `sample_pixel`, with the rest of the source for the next.
unfoldable pub sample_channel : Bool → Bool → (List ℕ → List ℕ) → List ℕ → List ℕ
sample_channel true true next src = first src ∷ next (drop 1 src)
sample_channel true false next src = 0 ∷ next src
sample_channel false has next src = next src

-- `sample_pixel`: a source channel that is not wanted is not skipped.
unfoldable pub sample_pixel : Channels → Channels → List ℕ → List ℕ
sample_pixel channels desired = sample_channel desired.r channels.r (
    sample_channel desired.g channels.g
      (sample_channel desired.b channels.b (sample_channel desired.a channels.a (λ src. []))))

-- A channel of `decompose_pixel`
unfoldable pub decompose_channel : Bool → (List ℕ → List ℕ) → List ℕ → List ℕ
decompose_channel true next src = first src ∷ next (drop 1 src)
decompose_channel false next src = 0 ∷ next src

-- `decompose_pixel`
unfoldable pub decompose_pixel : Channels → List ℕ → List ℕ
decompose_pixel c =
    decompose_channel c.r
      (decompose_channel c.g (decompose_channel c.b (decompose_channel c.a (λ src. []))))

-- `compose_pixel`
unfoldable pub compose_pixel : Channels → List ℕ → List ℕ
compose_pixel c col =
    (if c.r then get_or col 0 0 ∷ [] else [])
    ++ ((if c.g then get_or col 1 0 ∷ [] else [])
        ++ ((if c.b then get_or col 2 0 ∷ [] else []) ++ (if c.a then get_or col 3 0 ∷ [] else [])))

-- The inner loop of `bitmat_mulv`, from column `j` on.
unfoldable pub bitmat_row : ℕ → ℕ → List ℕ → ℕ → ℕ → ℕ
bitmat_row zero mat col i j = 0
bitmat_row (suc n) mat col i j =
    let rest = bitmat_row n mat col i (j + 1) in
    if not (bit_and mat (2 ^ (i * 4 + j)) == 0) then get_or col j 0 else rest

-- `bitmat_mulv`
unfoldable pub bitmat_mulv : ℕ → List ℕ → List ℕ
bitmat_mulv mat col =
    bitmat_row 4 mat col 0 0
    ∷ bitmat_row 4 mat col 1 0
    ∷ bitmat_row 4 mat col 2 0
    ∷ bitmat_row 4 mat col 3 0
    ∷ []

-- The loops over the pixels of an image: `f` makes a pixel of what stands there.
unfoldable pub each_pixel : (List ℕ → List ℕ) → Img → List ℕ → List ℕ
each_pixel f img =
    let bpp = compute_bpp img.channels img.depth / 8 in
    for_to img.height (λ y. for_to img.width λ x out.
      let off = bpp * x + bpp * img.width * y in
      let pixel = f (drop off img.pixels) in copy_at out off pixel (length pixel))

-- `ilA_img_swizzle`
unfoldable pub swizzle : Img → ℕ → Option Img
swizzle img mask =
    let f = λ (src : List ℕ).
      compose_pixel img.channels (bitmat_mulv mask (decompose_pixel img.channels src)) in
    Option.map (λ (new : Img). record new { pixels = each_pixel f img new.pixels })
      (from_data none img.width img.height img.depth img.channels)

-- `ilA_img_bgra_to_rgba`, of an image that has four channels.
unfoldable pub bgra_to_rgba : Img → Option Img
bgra_to_rgba img =
    let f =
      λ (src : List ℕ). get_or src 2 0 ∷ get_or src 1 0 ∷ get_or src 0 0 ∷ get_or src 3 0 ∷ [] in
    Option.map (λ (new : Img). record new { pixels = each_pixel f img new.pixels })
      (from_data none img.width img.height img.depth img.channels)
