-- ===== src/Network/Buffer/Back.antt =====
-- network/buffer.c: what was written is read back.
use intense_logic.Base.{
  length-append, ℕ, ◌+◌, ◌*◌, ◌^◌, ◌≤◌, ◌<◌, ◌≡◌, ap, ◌∙◌, some, List, ◌++◌, append_assoc, arith,
  length, replicate,
}
use intense_logic.Network.Buffer.{Buf, writeu, readu, seek, word}
use intense_logic.Network.Buffer.Room.{Written}
use intense_logic.Network.Buffer.Write.{big_endian, writeu-Written}
use intense_logic.Network.Buffer.Read.{
  Readable, Width, w8, w16, w32, w64, readu_lem, big_endian-AllBytes, length-big_endian,
  from_bytes-big_endian,
}

Width-bounds : {k i : ℕ} → Width k → i < 2 ^ (8 * k) → (k ≤ 8) × (i < word)
Width-bounds w8 h = (omega arith, omega arith)
Width-bounds w16 h = (omega arith, omega arith)
Width-bounds w32 h = (omega arith, omega arith)
Width-bounds w64 h = (omega arith, omega arith)

seek-Readable :
    (c : Buf) (out bytes : List ℕ)
    → (w : Written c (out ++ bytes) 0)
    → Readable (seek c (8 * length out)).0 out bytes (replicate w.tail 0) 0
unfolding seek
seek-Readable c out bytes w = record {
  aligned = omega arith;
  at = omega arith;
  mem = w.mem ∙ append_assoc out bytes (replicate w.tail 0);
  long = omega (arith, w.long, length-append out bytes);
}

-- A number of 8, 16, 32 or 64 bits that is written behind `out` is read back from there after
-- `ilN_buf_seek`, and the cursor stands behind it again, at the first bit of a byte.
pub readu-writeu :
    {k : ℕ} (b : Buf) (out : List ℕ) (i : ℕ)
    → Width k
    → i < 2 ^ (8 * k)
    → Written b out 0
    → (c : Buf) × (d : Buf) × (writeu b i (8 * k) ≡ some c)
      × (readu (seek c (8 * length out)).0 (8 * k) ≡ some (i, d))
      × (d.byte ≡ length out + k)
      × (d.bit ≡ 0)
unfolding seek
readu-writeu {k = k} b out i w h v =
    let (small, fits) = Width-bounds w h in
    let (c, run, wc) = writeu-Written b out k i v small fits in
    let back =
      readu_lem (seek c (8 * length out)).0 out (big_endian k i) (replicate wc.tail 0) 0 k
        (seek-Readable c out (big_endian k i) wc) (big_endian-AllBytes k i)
        (length-big_endian k i) in
    (
      c,
      _,
      run,
      back
          ∙ ap
              (λ n. some (
                n,
                record (seek c (8 * length out)).0 {
                  byte = (seek c (8 * length out)).0.byte + k;
                  bit = 0;
                },
              ))
              (from_bytes-big_endian i w h),
      omega arith,
      omega arith,
    )
