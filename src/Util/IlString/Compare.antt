-- ===== src/Util/IlString/Compare.antt =====
-- util/string.c: what the comparison tells apart.
use intense_logic.Base.{
  ne→==_false, le→ltb_false, ℕ, zero, suc, ◌≤◌, ◌≡◌, refl, ap, ◌≢◌, true, List, [], ◌∷◌, arith, ltb,
  if◌then◌else◌, get_or, take, drop,
}
use intense_logic.Base.{pos, negsuc}
use intense_logic.Util.IlString.{IlString, verify, string_static, string_cmp, strncmp, sealed}

-- No comparison with a string from `il_string_static` succeeds: it gives -1 for all strings.
pub static_cmp : (at : ℕ) (s : List ℕ) (t : IlString) → string_cmp (string_static at s) t ≡ negsuc 0
unfolding string_cmp string_static verify sealed
static_cmp at s t = ground arith

strncmp_same : (n : ℕ) (a b : List ℕ) → take n a ≡ take n b → strncmp n a b ≡ pos 0
unfolding strncmp
strncmp_same zero a b e = refl
strncmp_same (suc n) [] b e = refl
strncmp_same (suc n) (c ∷ a) [] e = refl
strncmp_same (suc n) (c ∷ a) (d ∷ b) e =
    let head : c ≡ d = ap (λ l. get_or l 0 0) e in
    let tail : take n a ≡ take n b = ap (drop 1) e in
    rw
      (
        le→ltb_false c d (omega (arith, head)),
        le→ltb_false d c (omega (arith, head)),
        strncmp_same n a b tail,
      )
      (ground arith)

-- Strings that do not share storage and agree up to the shorter length are equal to
-- `il_string_cmp`: a string equals its prefixes.
pub prefix_cmp :
    (a b : IlString)
    → verify a ≡ true
    → verify b ≡ true
    → a.data_at ≢ b.data_at
    → a.length ≤ b.length
    → take a.length a.bytes ≡ take a.length b.bytes
    → string_cmp a b ≡ pos 0
unfolding string_cmp
prefix_cmp a b va vb ne le e =
    let shorter : (if ltb a.length b.length then a.length else b.length) ≡ a.length =
      ground arith in
    rw (va, vb, ne→==_false a.data_at b.data_at ne, shorter)
      (strncmp_same a.length a.bytes b.bytes e)
