-- ===== src/Network/Buffer.antt =====
-- network/buffer.c: a growable byte buffer with a cursor that counts bits. `none` is an access outside
-- the storage or a shift by a count that is negative or above 63. A float or a double is its bit pattern.
pub mod Room
pub mod Write
pub mod Read
pub mod Back
use intense_logic.Base.{
  strnlen, ℕ, zero, suc, ◌+◌, ◌-◌, ◌*◌, ◌/◌, ◌%◌, ◌^◌, ◌≤◌, ◌<◌, min, ◌≡◌, refl, sym, ap, ap₂, ◌∙◌,
  ◌≢◌, ◌↔◌, ◌⊎◌, inl, inr, Bool, true, false, not, ◌&&◌, ◌||◌, Option, none, some, List, [], ◌∷◌,
  ◌++◌, map, append-nil, append_assoc, arith, ltb, leb, ◌==◌, if◌then◌else◌, length, get_elem?,
  get_or, set, take, drop, replicate, copy_at, Bool-cases, dec_lt, ℕ_discrete,
}
use Prim.Native.Nat.{bit_or}
use intense_logic.Base.{◌>>=◌}
use mathlib.Core.Option
use intense_logic.Array.{Array, empty, contents, grow_to}

-- `struct ilN_buf`
pub record Buf : Type 0 where
  pub buf : Array ℕ
  pub byte : ℕ
  pub bit : ℕ

abbrev pub word : ℕ
word = 2 ^ 64

-- `ilN_buf_new`
abbrev pub new : Buf
new = record { buf = empty; byte = 0; bit = 0 }

-- `ilN_buf_align`
unfoldable pub align : Buf → Buf
align b = if b.bit == 0 then b else record b { bit = 0; byte = b.byte + 1 }

-- What the loop of `ilN_buf_makeRoom` compares with the capacity.
abbrev pub needed : Buf → ℕ → ℕ
needed b bytes = b.byte + bytes + (if b.bit == 0 then 0 else 1)

-- `ilN_buf_makeRoom`: its loop is that of `IL_SET`, and a round for each byte needed is enough.
unfoldable pub make_room : Buf → ℕ → Option Buf
make_room b bytes =
    Option.map (λ a. record b { buf = record a { length = a.length + bytes } })
      (grow_to 0 (suc (suc (needed b bytes))) (needed b bytes) b.buf)

-- `ilN_buf_in`: the cursor does not move past what is written.
unfoldable pub write_in : Buf → List ℕ → Option Buf
write_in b bytes = do
  c ← make_room (align b) (length bytes)
  some (record c { buf = record (c.buf) { mem = copy_at (c.buf).mem c.byte bytes (length bytes) } })

-- `ilN_buf_out`
unfoldable pub out : Buf → List ℕ
out b = contents b.buf

-- `ilN_buf_clear`: the storage keeps its bytes.
unfoldable pub clear : Buf → Buf
clear b = record b { buf = record (b.buf) { length = 0 }; byte = 0; bit = 0 }

-- `ilN_buf_tell`
unfoldable pub tell : Buf → ℕ
tell b = b.byte * 8 + b.bit

-- `ilN_buf_seek`, with its result
unfoldable pub seek : Buf → ℕ → Buf × Bool
seek b pos = (record b { byte = pos / 8; bit = pos % 8 }, not (leb (b.buf).length (pos / 8)))

-- The cursor after `n` more bits of the current byte.
abbrev pub advance : Buf → ℕ → Buf
advance b n =
    if ltb 7 (b.bit + n)
    then record b { byte = b.byte + 1; bit = 0 }
    else record b { bit = b.bit + n }

-- `write_bits`: the bits are or-ed into the byte that stands there.
unfoldable pub write_bits : Buf → ℕ → ℕ → Option (ℕ × Buf)
write_bits b val bits =
    let n = 8 - b.bit in
    let bits' = if ltb n bits then n else bits in
    let byte = val % 256 % 2 ^ bits' * 2 ^ b.bit % 256 in
    do
      old ← get_elem? (b.buf).mem b.byte
      some (
        bits',
        advance
            (record b { buf = record (b.buf) { mem = set (b.buf).mem b.byte (bit_or old byte) } })
            bits',
      )

-- The loop of `ilN_buf_writeu`, with the number of bits written so far.
unfoldable pub write_loop : ℕ → Buf → ℕ → ℕ → ℕ → Option Buf
write_loop zero b i size bit = none
write_loop (suc fuel) b i size bit =
    let next = λ (r : ℕ × Buf). write_loop fuel r.1 i size (bit + r.0) in
    if leb size bit
    then some b
    else if ltb (size - bit) 8 || ltb 71 (size - bit)
    then none
    else (write_bits b (i / 2 ^ (size - bit - 8)) (size - bit) >>= next)

-- `ilN_buf_writeu` and `ilN_buf_writei`: a round writes at least one bit.
unfoldable pub writeu : Buf → ℕ → ℕ → Option Buf
writeu b i size = do c ← make_room b (size / 8); write_loop (suc size) c (i % word) size 0

-- `ilN_buf_writef`, `ilN_buf_writed`
unfoldable pub writef : Buf → ℕ → Option Buf
writef b f = writeu b f 32

unfoldable pub writed : Buf → ℕ → Option Buf
writed b d = writeu b d 64

-- `ilN_buf_writec`
unfoldable pub writec : Buf → List ℕ → ℕ → Option Buf
writec b s len = do
  let size = strnlen s len
  c ← write_in b (take size s)
  some (record c { byte = c.byte + size })

-- `ilN_buf_check`
unfoldable pub check : Buf → ℕ → Bool
check b bytes = leb (bytes + b.byte) (b.buf).length

-- `read_bits`: what it returns, the value read so far, and the buffer.
unfoldable pub read_bits : Buf → ℕ → ℕ → Option (ℕ × ℕ × Buf)
read_bits b v bits =
    let n = 8 - b.bit in
    let s = if ltb n bits then n else bits in
    do
      old ← get_elem? (b.buf).mem b.byte
      some (n, bit_or (v * 2 ^ s % word) (old / 2 ^ b.bit % 2 ^ s), advance b s)

unfoldable pub read_loop : ℕ → Buf → ℕ → ℕ → ℕ → Option (ℕ × Buf)
read_loop zero b v size bit = none
read_loop (suc fuel) b v size bit =
    let next = λ (r : ℕ × ℕ × Buf). read_loop fuel r.2 r.1 size (bit + r.0) in
    if leb size bit then some (v, b) else (read_bits b v (size - bit) >>= next)

-- `ilN_buf_readu` and `ilN_buf_readi`
unfoldable pub readu : Buf → ℕ → Option (ℕ × Buf)
readu b size = if check b (size / 8) then read_loop (suc size) b 0 size 0 else some (0, b)

-- `ilN_buf_readf`, `ilN_buf_readd`
unfoldable pub readf : Buf → Option (ℕ × Buf)
readf b = if check b 4 then Option.map (λ r. (r.0 % 2 ^ 32, r.1)) (readu b 32) else some (0, b)

unfoldable pub readd : Buf → Option (ℕ × Buf)
readd b = if check b 8 then readu b 64 else some (0, b)

-- `ilN_buf_readc`: the bytes, or NULL. What it returns is not terminated.
unfoldable pub readc : Buf → ℕ → Option (Option (List ℕ) × Buf)
readc b len =
    let c = align b in
    if not (check b len)
    then some (none, b)
    else if ltb (c.buf).capacity (c.byte + len)
    then none
    else some (some (take len (drop c.byte (c.buf).mem)), record c { byte = c.byte + len })
