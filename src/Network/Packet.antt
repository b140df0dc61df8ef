-- ===== src/Network/Packet.antt =====
-- network/packet.c: a packet on the wire. `arrival` is not part of it. `none` is a fault of the buffer.
pub mod Flags
pub mod Encode
pub mod Decode
use intense_logic.Base
use intense_logic.Base.{
  ℕ, zero, suc, ◌+◌, ◌-◌, ◌*◌, ◌/◌, ◌%◌, ◌^◌, ◌≤◌, ◌<◌, min, ◌≡◌, refl, sym, ap, ap₂, ◌∙◌, ◌≢◌, ◌↔◌,
  ◌⊎◌, inl, inr, Bool, true, false, not, ◌&&◌, ◌||◌, Option, none, some, List, [], ◌∷◌, ◌++◌, map,
  append-nil, append_assoc, arith, ltb, leb, ◌==◌, if◌then◌else◌, length, get_elem?, get_or, set,
  take, drop, replicate, copy_at, Bool-cases, dec_lt, ℕ_discrete,
}
use Prim.Native.Nat.{bit_or, bit_and}
use intense_logic.Base.{◌>>=◌}
use intense_logic.Network.Buffer.{Buf, new, writeu, writec, write_in, out, readu, readc, tell}

-- `ilN_packet`; `data` is `none` for NULL.
pub record Packet : Type 0 where
  pub flags : ℕ
  pub channel : ℕ
  pub event : ℕ
  pub object : ℕ
  pub type : ℕ
  pub length : ℕ
  pub payload : Option (List ℕ)

-- `flags |= ILN_PACKET_OBJECT; flags &= ~ILN_PACKET_TYPE;` on a `uint8_t`, and the other way round.
unfoldable pub object_flags : ℕ → ℕ
object_flags f = bit_and (bit_or f 2) 0xfe

unfoldable pub type_flags : ℕ → ℕ
type_flags f = bit_and (bit_or f 1) 0xfd

-- The flags that `ilN_packet_serialize` writes.
unfoldable pub wire_flags : Packet → ℕ
wire_flags p =
    if not (p.object == 0)
    then object_flags p.flags
    else if not (p.type == 0)
    then type_flags p.flags
    else p.flags

unfoldable pub write_id : Buf → Packet → Option Buf
write_id b p =
    if not (p.object == 0)
    then writeu b p.object 32
    else if not (p.type == 0)
    then writeu b p.type 32
    else some b

unfoldable pub write_payload : Buf → ℕ → Option (List ℕ) → Option Buf
write_payload b n none = some b
write_payload b n (some bytes) = writec b bytes n

-- `ilN_packet_serialize`
unfoldable pub serialize : Packet → Option (List ℕ)
serialize p = do
  b1 ← writeu new (wire_flags p) 8
  b2 ← writeu b1 p.channel 8
  b3 ← writeu b2 p.event 16
  b4 ← write_id b3 p
  b5 ← write_payload b4 p.length p.payload
  some (out b5)

-- The object identifier, if the flags say that the packet has one: a type's is read into `object` too.
unfoldable pub read_id : Buf → ℕ → Option (ℕ × Buf)
read_id b flags =
    if not (bit_and flags 2 == 0)
    then readu b 32
    else if not (bit_and flags 1 == 0)
    then readu b 32
    else some (0, b)

-- `ilN_packet_deserialize`
unfoldable pub deserialize : List ℕ → Option Packet
deserialize bytes = do
  b0 ← write_in new bytes
  (flags, b1) ← readu b0 8
  (channel, b2) ← readu b1 8
  (event, b3) ← readu b2 16
  (object, b4) ← read_id b3 (flags % 2 ^ 8)
  let size = (Base.length bytes - tell b4 / 8) % 2 ^ 16
  (payload, b5) ← readc b4 size
  some (record {
    flags = flags % 2 ^ 8;
    channel = channel % 2 ^ 8;
    event = event % 2 ^ 16;
    object = object % 2 ^ 32;
    type = 0;
    length = size;
    payload = payload;
  })
