-- ===== src/Asset/Image/Pixel.antt =====
-- asset/image.c: taking pixels apart and together.
use intense_logic.Base.{
  ℕ, zero, suc, ◌+◌, ◌≤◌, ◌≡◌, refl, ap, ◌∙◌, Bool, true, false, List, [], ◌∷◌, arith, length, take,
  drop,
}
use intense_logic.Asset.Image.{
  Channels, count, bit, first, sample_pixel, sample_channel, decompose_pixel, decompose_channel,
  compose_pixel,
}

-- The first `n` bytes, one after the other.
abbrev firsts : ℕ → List ℕ → List ℕ
firsts zero src = []
firsts (suc n) src = first src ∷ firsts n (drop 1 src)

take-firsts : (n : ℕ) (src : List ℕ) → n ≤ length src → firsts n src ≡ take n src
take-firsts zero src h = refl
take-firsts (suc n) [] h = absurd (omega arith)
take-firsts (suc n) (c ∷ src) h = ap (λ l. c ∷ l) (take-firsts n src (omega arith))

-- A pixel that is taken apart and put together again is the bytes of its channels.
pub compose_pixel-decompose_pixel :
    (c : Channels) (src : List ℕ)
    → count c ≤ length src
    → compose_pixel c (decompose_pixel c src) ≡ take (count c) src
unfolding compose_pixel decompose_pixel decompose_channel
compose_pixel-decompose_pixel c src h = go c.r c.g c.b c.a src ∙ take-firsts (count c) src h
  where
    go :
        (r g b a : Bool) (src : List ℕ)
        → compose_pixel
            (record { r = r; g = g; b = b; a = a })
            (decompose_pixel (record { r = r; g = g; b = b; a = a }) src)
          ≡ firsts (bit r + bit g + bit b + bit a) src
    go true true true true src = refl
    go true true true false src = refl
    go true true false true src = refl
    go true true false false src = refl
    go true false true true src = refl
    go true false true false src = refl
    go true false false true src = refl
    go true false false false src = refl
    go false true true true src = refl
    go false true true false src = refl
    go false true false true src = refl
    go false true false false src = refl
    go false false true true src = refl
    go false false true false src = refl
    go false false false true src = refl
    go false false false false src = refl

-- Four channels.
abbrev pub rgba : Channels
rgba = record { r = true; g = true; b = true; a = true }

-- Sampled to four channels, a pixel gives each channel that it has, and 0 for the others.
pub sample_pixel-rgba :
    (c : Channels) (src : List ℕ) → sample_pixel c rgba src ≡ decompose_pixel c src
unfolding sample_pixel sample_channel decompose_pixel decompose_channel
sample_pixel-rgba c src = go c.r c.g c.b c.a src
  where
    go :
        (r g b a : Bool) (src : List ℕ)
        → sample_pixel (record { r = r; g = g; b = b; a = a }) rgba src
          ≡ decompose_pixel (record { r = r; g = g; b = b; a = a }) src
    go true true true true src = refl
    go true true true false src = refl
    go true true false true src = refl
    go true true false false src = refl
    go true false true true src = refl
    go true false true false src = refl
    go true false false true src = refl
    go true false false false src = refl
    go false true true true src = refl
    go false true true false src = refl
    go false true false true src = refl
    go false true false false src = refl
    go false false true true src = refl
    go false false true false src = refl
    go false false false true src = refl
    go false false false false src = refl
