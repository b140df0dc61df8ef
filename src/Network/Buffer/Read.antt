-- ===== src/Network/Buffer/Read.antt =====
-- network/buffer.c: what the readers give, with the cursor at the start of a byte.
use intense_logic.Base.{
  le→ltb_false, take_all, take-append, drop-append_add, le→leb, length-append, lt→leb_false,
  get_elem?-mid, ℕ, zero, suc, ◌+◌, ◌-◌, ◌*◌, ◌/◌, ◌%◌, ◌^◌, ◌≤◌, ◌<◌, ◌≡◌, refl, sym, ap, ap₂, ◌∙◌,
  some, List, [], ◌∷◌, ◌++◌, append_assoc, arith, ltb, if◌then◌else◌, length, get_elem?, take, drop,
}
use Prim.Native.Nat.{bit_or}
use intense_logic.Base.Bits.{bit_or-disjoint}
use intense_logic.Network.Buffer.Write.{align_at_byte, big_endian}
use intense_logic.Network.Buffer.{Buf, word, check, read_bits, read_loop, readu, readc}

abbrev pub AllBytes : List ℕ → Type 0
AllBytes [] = Unit
AllBytes (c ∷ s) = (c < 256) × AllBytes s

-- The cursor stands in front of `bytes`; `after` bytes are in use behind them.
pub record Readable (b : Buf) (out bytes rest : List ℕ) (after : ℕ) : Type 0 where
  pub aligned : b.bit ≡ 0
  pub at : b.byte ≡ length out
  pub mem : (b.buf).mem ≡ out ++ (bytes ++ rest)
  pub long : (b.buf).length ≡ length out + length bytes + after

-- The number that `read_loop` makes of bytes, the highest first, in 64 bits.
abbrev pub from_bytes : ℕ → List ℕ → ℕ
from_bytes v [] = v
from_bytes v (d ∷ ds) = from_bytes (v * 256 % word + d) ds

shift_or : (v d : ℕ) → d < 256 → bit_or (v * 2 ^ 8 % word) (d / 2 ^ 0 % 2 ^ 8) ≡ v * 256 % word + d
shift_or v d h =
    ap₂ bit_or {y = (v % 2 ^ 56) * 2 ^ 8} {v = d} (omega arith) (omega arith)
    ∙ bit_or-disjoint 8 (v % 2 ^ 56) d (omega arith)
    ∙ omega arith

read_bits_lem :
    (b : Buf) (v d r : ℕ)
    → b.bit ≡ 0
    → get_elem? (b.buf).mem b.byte ≡ some d
    → d < 256
    → 8 ≤ r
    → read_bits b v r ≡ some (8, v * 256 % word + d, record b { byte = b.byte + 1; bit = 0 })
unfolding read_bits
read_bits_lem b v d r e g h s =
    let bits : (if ltb (8 - 0) r then 8 - 0 else r) ≡ 8 = ground arith in
    rw (e, bits, g) (rw (shift_or v d h))

past-Readable :
    (b : Buf) (out ds rest : List ℕ) (d after : ℕ)
    → Readable b out (d ∷ ds) rest after
    → Readable (record b { byte = b.byte + 1; bit = 0 }) (out ++ (d ∷ [])) ds rest after
past-Readable b out ds rest d after r = record {
  aligned = refl;
  at = omega (arith, length-append out (d ∷ []), r.at);
  mem = r.mem ∙ sym (append_assoc out (d ∷ []) (ds ++ rest));
  long = omega (arith, length-append out (d ∷ []), r.long);
}

read_loop_lem :
    (bytes : List ℕ) (fuel : ℕ) (b : Buf) (out rest : List ℕ) (after v size bit : ℕ)
    → Readable b out bytes rest after
    → AllBytes bytes
    → size ≡ bit + 8 * length bytes
    → length bytes < fuel
    → read_loop fuel b v size bit
      ≡ some (from_bytes v bytes, record b { byte = b.byte + length bytes; bit = 0 })
unfolding read_loop
read_loop_lem bytes zero b out rest after v size bit r a e f = absurd (omega arith)
read_loop_lem [] (suc fuel) b out rest after v size bit r a e f =
    rw (le→leb size bit (omega arith)) (ground (arith, r.aligned))
read_loop_lem (d ∷ ds) (suc fuel) b out rest after v size bit r a e f =
    let step =
      read_bits_lem b v d (size - bit) r.aligned
        (ap₂ get_elem? r.mem r.at ∙ get_elem?-mid out (ds ++ rest) d (length out) refl) a.0
        (omega arith) in
    let rest_of =
      read_loop_lem ds fuel (record b { byte = b.byte + 1; bit = 0 }) (out ++ (d ∷ [])) rest after
        (v * 256 % word + d) size (bit + 8) (past-Readable b out ds rest d after r) a.1
        (omega arith) (omega arith) in
    rw (lt→leb_false size bit (omega arith), step)
      (rest_of
        ∙ ap (λ n. some (from_bytes v (d ∷ ds), record b { byte = n; bit = 0 }))
            {x = b.byte + 1 + length ds} (omega arith))

-- At the start of a byte, reading `8 * k` bits gives the number of the next `k` bytes, the highest
-- first, and moves the cursor behind them.
pub readu_lem :
    (b : Buf) (out bytes rest : List ℕ) (after k : ℕ)
    → Readable b out bytes rest after
    → AllBytes bytes
    → length bytes ≡ k
    → readu b (8 * k) ≡ some (from_bytes 0 bytes, record b { byte = b.byte + k; bit = 0 })
unfolding readu check
readu_lem b out bytes rest after k r a e =
    rw (le→leb (8 * k / 8 + b.byte) (b.buf).length (omega (arith, r.long, r.at))) (
      read_loop_lem bytes (suc (8 * k)) b out rest after 0 (8 * k) 0 r a (omega arith) (omega arith)
      ∙ ap (λ n. some (from_bytes 0 bytes, record b { byte = b.byte + n; bit = 0 })) e)

-- Asked for more bits than the buffer holds, `ilN_buf_readu` gives 0 and does not move.
pub readu_short :
    (b : Buf) (size : ℕ) → (b.buf).length < size / 8 + b.byte → readu b size ≡ some (0, b)
unfolding readu check
readu_short b size h = rw (lt→leb_false (size / 8 + b.byte) (b.buf).length h)

-- `ilN_buf_readc` of the rest of the bytes gives them.
pub readc_lem :
    (b : Buf) (out bytes rest : List ℕ)
    → Readable b out bytes rest 0
    → length out + length bytes ≤ (b.buf).capacity
    → readc b (length bytes) ≡ some (some bytes, record b { byte = b.byte + length bytes })
unfolding readc check
readc_lem b out bytes rest r c =
    let slice : take (length bytes) (drop b.byte (b.buf).mem) ≡ bytes =
      ap (take (length bytes))
        (ap₂ drop r.at r.mem ∙ drop-append_add (length out) 0 out (bytes ++ rest) (omega arith))
      ∙ take-append (length bytes) bytes rest (omega arith)
      ∙ take_all (length bytes) bytes (omega arith) in
    rw
      (
        align_at_byte b r.aligned,
        le→leb (length bytes + b.byte) (b.buf).length (omega (arith, r.long, r.at)),
        le→ltb_false (b.buf).capacity (b.byte + length bytes) (omega (arith, r.at)),
      )
      (ap (λ l. some (some l, record b { byte = b.byte + length bytes })) slice)

pub big_endian-AllBytes : (k i : ℕ) → AllBytes (big_endian k i)
big_endian-AllBytes zero i = tt
big_endian-AllBytes (suc k) i = (omega arith, big_endian-AllBytes k i)

pub length-big_endian : (k i : ℕ) → length (big_endian k i) ≡ k
length-big_endian zero i = refl
length-big_endian (suc k) i = ap suc (length-big_endian k i)

-- The sizes of the macros `ilN_buf_writeu8` to `ilN_buf_writeu64`, in bytes.
pub data Width : ℕ → Type 0 where
  w8 : Width 1
  w16 : Width 2
  w32 : Width 4
  w64 : Width 8

-- The bytes of a number that fits are read back as the number.
pub from_bytes-big_endian :
    {k : ℕ} (i : ℕ) → Width k → i < 2 ^ (8 * k) → from_bytes 0 (big_endian k i) ≡ i
from_bytes-big_endian i w8 h = omega arith
from_bytes-big_endian i w16 h = omega arith
from_bytes-big_endian i w32 h = omega arith
from_bytes-big_endian i w64 h = omega arith
