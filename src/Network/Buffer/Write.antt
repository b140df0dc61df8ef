-- ===== src/Network/Buffer/Write.antt =====
-- network/buffer.c: what the writers append, with the cursor at the end of a fresh buffer.
use native.Mathlib.Nat.{mod-eq_of_lt}
use intense_logic.Base.{
  take-append_add, length-take, drop-append_add, set-mid, get_elem?-mid, length-append, le→leb,
  take_all, lt→leb_false, le→ltb_false, ℕ, zero, suc, ◌+◌, ◌-◌, ◌*◌, ◌/◌, ◌%◌, ◌^◌, ◌≤◌, ◌<◌, ◌≡◌,
  refl, sym, ap, ◌∙◌, some, List, [], ◌∷◌, ◌++◌, append-nil, append_assoc, arith, ltb,
  if◌then◌else◌, length, get_elem?, set, take, drop, replicate, copy_at,
}
use Prim.Native.Nat.{bit_or}
use intense_logic.Base.Bits.{zero-bit_or}
use intense_logic.Base.{strnlen, strnlen-le}
use intense_logic.Network.Buffer.{
  writec, align, Buf, make_room, write_in, write_bits, write_loop, writeu, word,
}
use intense_logic.Network.Buffer.Room.{Written, make_room-Written, drop-replicate}

-- The byte that `write_bits` makes of a value, at the start of a byte.
byte_value : (v s t : ℕ) → s ≡ 8 → t ≡ 0 → v % 256 % 2 ^ s * 2 ^ t % 256 ≡ v % 256
byte_value v s t e f = rw (e, f) (omega arith)

-- The buffer with one more byte behind `out`.
abbrev with_byte : Buf → List ℕ → ℕ → ℕ → Buf
with_byte b out tail v = record b {
  buf = record (b.buf) { mem = out ++ (v ∷ replicate tail 0) };
  byte = b.byte + 1;
  bit = 0;
}

with_byte-Written :
    (b : Buf) (out : List ℕ) (n v : ℕ) (w : Written b out (suc n))
    → Written (with_byte b out (w.tail - 1) v) (out ++ (v ∷ [])) n
with_byte-Written b out n v w = record {
  tail = w.tail - 1;
  aligned = refl;
  at_end = omega (arith, length-append out (v ∷ []), w.at_end);
  long = omega (arith, length-append out (v ∷ []), w.long);
  mem = sym (append_assoc out (v ∷ []) (replicate (w.tail - 1) 0));
  storage = omega (arith, length-append out (v ∷ []), w.storage, w.room);
  room = omega (arith, w.room);
}

write_bits-Written :
    (b : Buf) (out : List ℕ) (n v r : ℕ) (w : Written b out (suc n))
    → 8 ≤ r
    → write_bits b v r ≡ some (8, with_byte b out (w.tail - 1) (v % 256))
unfolding write_bits
write_bits-Written b out n v r w h =
    let split : (b.buf).mem ≡ out ++ (0 ∷ replicate (w.tail - 1) 0) =
      w.mem ∙ ap (λ t. out ++ replicate t 0) {y = suc (w.tail - 1)} (omega (arith, w.room)) in
    let old : get_elem? (b.buf).mem b.byte ≡ some 0 =
      ap (λ m. get_elem? m b.byte) split ∙ get_elem?-mid out _ 0 b.byte w.at_end in
    let bits : (if ltb (8 - 0) r then 8 - 0 else r) ≡ 8 = ground arith in
    let value : bit_or 0 (v % 256 % 2 ^ 8 * 2 ^ 0 % 256) ≡ v % 256 =
      zero-bit_or (v % 256 % 2 ^ 8 * 2 ^ 0 % 256) ∙ byte_value v 8 0 refl refl in
    let stored : set (b.buf).mem b.byte (v % 256) ≡ out ++ (v % 256 ∷ replicate (w.tail - 1) 0) =
      ap (λ m. set m b.byte (v % 256)) split ∙ set-mid out _ 0 (v % 256) b.byte w.at_end in
    rw (w.aligned, bits, old) (rw (value, stored))

-- `k` bytes of a number, the highest first.
abbrev pub big_endian : ℕ → ℕ → List ℕ
big_endian zero i = []
big_endian (suc k) i = (i / 2 ^ (8 * k) % 256) ∷ big_endian k i

-- Each round of the loop writes a byte, from the highest.
write_loop-Written :
    (k fuel size bit : ℕ) (b : Buf) (out : List ℕ) (i : ℕ)
    → Written b out k
    → size ≡ bit + 8 * k
    → k ≤ 8
    → k < fuel
    → (c : Buf) × (write_loop fuel b i size bit ≡ some c) × Written c (out ++ big_endian k i) 0
unfolding write_loop
write_loop-Written k zero size bit b out i w e s f = absurd (omega arith)
write_loop-Written zero (suc fuel) size bit b out i w e s f =
    (b, rw (le→leb size bit (omega arith)), rw append-nil w)
write_loop-Written (suc k) (suc fuel) size bit b out i w e s f =
    let d : ℕ = i / 2 ^ (8 * k) % 256 in
    let shift : size - bit - 8 ≡ 8 * k = omega arith in
    let step : write_bits b (i / 2 ^ (size - bit - 8)) (size - bit)
        ≡ some (8, with_byte b out (w.tail - 1) d) =
      rw shift (write_bits-Written b out k (i / 2 ^ (8 * k)) (size - bit) w (omega arith)) in
    let (c, run, wc) =
      write_loop-Written k fuel size (bit + 8) (with_byte b out (w.tail - 1) d) (out ++ (d ∷ [])) i
        (with_byte-Written b out k d w) (omega arith) (omega arith) (omega arith) in
    (
      c,
      rw
          (
            lt→leb_false size bit (omega arith),
            le→ltb_false (size - bit) 8 (omega arith),
            le→ltb_false 71 (size - bit) (omega arith),
            step,
          )
          run,
      rw append_assoc at wc,
    )

writeu_runs :
    (b c d : Buf) (i size : ℕ)
    → i < word
    → make_room b (size / 8) ≡ some c
    → write_loop (suc size) c i size 0 ≡ some d
    → writeu b i size ≡ some d
unfolding writeu
writeu_runs b c d i size h room run = rw (room, mod-eq_of_lt h) run

-- At the end of a buffer, writing a number of `8 * k` bits appends its bytes, the highest first.
pub writeu-Written :
    (b : Buf) (out : List ℕ) (k i : ℕ)
    → Written b out 0
    → k ≤ 8
    → i < word
    → (c : Buf) × (writeu b i (8 * k) ≡ some c) × Written c (out ++ big_endian k i) 0
writeu-Written b out k i w s h =
    let bytes : 8 * k / 8 ≡ k = omega arith in
    let (c, room, wc) = make_room-Written b out k w in
    let (d, run, wd) =
      write_loop-Written k (suc (8 * k)) (8 * k) 0 c out i wc (omega arith) s (omega arith) in
    (d, writeu_runs b c d i (8 * k) h (ap (make_room b) bytes ∙ room) run, wd)

pub align_at_byte : (b : Buf) → b.bit ≡ 0 → align b ≡ b
unfolding align
align_at_byte b e = ground arith

copy_at_end :
    (m out bytes : List ℕ) (tail off : ℕ)
    → m ≡ out ++ replicate tail 0
    → off ≡ length out
    → copy_at m off bytes (length bytes) ≡ (out ++ bytes) ++ replicate (tail - length bytes) 0
copy_at_end m out bytes tail off e f =
    let rest : drop off m ≡ replicate tail 0 =
      ap (drop off) e ∙ drop-append_add off 0 out (replicate tail 0) (omega arith) in
    let front : take off m ≡ out =
      ap (take off) e
      ∙ take-append_add off 0 out (replicate tail 0) (omega arith)
      ∙ append-nil out in
    rw
      (
        front,
        take_all (length bytes) bytes (omega arith),
        rest,
        drop-replicate tail (length bytes) (tail - length bytes) 0 refl,
      )
      (sym (append_assoc out bytes (replicate (tail - length bytes) 0)))

-- `ilN_buf_in` at the end of a buffer appends the bytes; the cursor stays in front of them.
pub write_in-Written :
    (b : Buf) (out bytes : List ℕ)
    → Written b out 0
    → (c : Buf) × (write_in b bytes ≡ some c)
      × (c.byte ≡ length out)
      × Written (record c { byte = length (out ++ bytes) }) (out ++ bytes) 0
unfolding write_in
write_in-Written b out bytes w =
    let (c, room, wc) = make_room-Written b out (length bytes) w in
    (
      record c { buf = record (c.buf) { mem = copy_at (c.buf).mem c.byte bytes (length bytes) } },
      rw (align_at_byte b w.aligned, room),
      wc.at_end,
      record {
        tail = wc.tail - length bytes;
        aligned = wc.aligned;
        at_end = refl;
        long = omega (arith, length-append out bytes, wc.long);
        mem = copy_at_end (c.buf).mem out bytes wc.tail c.byte wc.mem wc.at_end;
        storage = omega (arith, length-append out bytes, wc.storage, wc.room);
        room = omega arith;
      },
    )

-- `ilN_buf_writec` at the end of a buffer appends the bytes before the first NUL.
pub writec-Written :
    (b : Buf) (out s : List ℕ) (len : ℕ)
    → Written b out 0
    → (c : Buf) × (writec b s len ≡ some c) × Written c (out ++ take (strnlen s len) s) 0
unfolding writec
writec-Written b out s len w =
    let bytes : List ℕ = take (strnlen s len) s in
    let (c, run, e, wc) = write_in-Written b out bytes w in
    let moved : c.byte + strnlen s len ≡ length (out ++ bytes) =
      omega (arith, e, length-append out bytes, length-take (strnlen s len) s, strnlen-le s len) in
    (record c { byte = c.byte + strnlen s len }, rw run, rw moved wc)
