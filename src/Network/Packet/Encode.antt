-- ===== src/Network/Packet/Encode.antt =====
-- network/packet.c: the bytes that `ilN_packet_serialize` makes of a packet.
use intense_logic.Base.{
  take-append_add, ℕ, ◌+◌, ◌^◌, ◌<◌, ◌≡◌, refl, ap, ap₂, ◌∙◌, inl, inr, not, Option, none, some,
  List, [], ◌++◌, append-nil, arith, ◌==◌, if◌then◌else◌, length, take, replicate, Bool-cases,
}
use intense_logic.Base.{strnlen}
use intense_logic.Network.Buffer.{Buf, new, writeu, out}
use intense_logic.Network.Buffer.Room.{Written}
use intense_logic.Network.Buffer.Write.{writeu-Written, writec-Written, big_endian}
use intense_logic.Network.Packet.Flags.{object_flags_lem, type_flags_lem}
use intense_logic.Network.Packet.{Packet, serialize, wire_flags, write_id, write_payload}

-- The identifier on the wire: that of the object, else that of the type, else none.
abbrev pub id_bytes : Packet → List ℕ
id_bytes p =
    if not (p.object == 0)
    then big_endian 4 p.object
    else if not (p.type == 0)
    then big_endian 4 p.type
    else []

abbrev pub payload_bytes : ℕ → Option (List ℕ) → List ℕ
payload_bytes n none = []
payload_bytes n (some bytes) = take (strnlen bytes n) bytes

-- The fields are in the ranges of their C types.
pub record IsPacket (p : Packet) : Type 0 where
  pub flags : p.flags < 2 ^ 8
  pub channel : p.channel < 2 ^ 8
  pub event : p.event < 2 ^ 16
  pub object : p.object < 2 ^ 32
  pub type : p.type < 2 ^ 32

abbrev pub header : Packet → List ℕ
header p = (big_endian 1 (wire_flags p) ++ big_endian 1 p.channel) ++ big_endian 2 p.event

pub fresh : Written new [] 0
fresh = record {
  tail = 0;
  aligned = refl;
  at_end = refl;
  long = refl;
  mem = refl;
  storage = refl;
  room = omega arith;
}

write_id-Written :
    (b : Buf) (out : List ℕ) (p : Packet)
    → IsPacket p
    → Written b out 0
    → (c : Buf) × (write_id b p ≡ some c) × Written c (out ++ id_bytes p) 0
unfolding write_id
write_id-Written b out p v w = elim (Bool-cases (p.object == 0)) [
  | inr e ↦ rw e (writeu-Written b out 4 p.object w (omega arith) (omega (arith, v.object)))
  | inl e ↦ elim (Bool-cases (p.type == 0)) [
    | inr f ↦ rw (e, f) (writeu-Written b out 4 p.type w (omega arith) (omega (arith, v.type)))
    | inl f ↦ rw (e, f) (b, refl, rw append-nil w)
  ]
]

write_payload-Written :
    (b : Buf) (out : List ℕ) (n : ℕ) (o : Option (List ℕ))
    → Written b out 0
    → (c : Buf) × (write_payload b n o ≡ some c) × Written c (out ++ payload_bytes n o) 0
unfolding write_payload
write_payload-Written b out n none w = (b, refl, rw append-nil w)
write_payload-Written b out n (some bytes) w = writec-Written b out bytes n w

serialize_runs :
    (p : Packet) (b1 b2 b3 b4 b5 : Buf)
    → writeu new (wire_flags p) 8 ≡ some b1
    → writeu b1 p.channel 8 ≡ some b2
    → writeu b2 p.event 16 ≡ some b3
    → write_id b3 p ≡ some b4
    → write_payload b4 p.length p.payload ≡ some b5
    → serialize p ≡ some (out b5)
unfolding serialize
serialize_runs p b1 b2 b3 b4 b5 e1 e2 e3 e4 e5 = rw (e1, e2, e3, e4, e5) refl

out-Written : (b : Buf) (bytes : List ℕ) → Written b bytes 0 → out b ≡ bytes
unfolding out
out-Written b bytes w =
    ap₂ take w.long w.mem
    ∙ take-append_add (length bytes + 0) 0 bytes (replicate w.tail 0) (omega arith)
    ∙ append-nil bytes

pub wire_flags-lt : (p : Packet) → IsPacket p → wire_flags p < 2 ^ 8
unfolding wire_flags
wire_flags-lt p v = elim (Bool-cases (p.object == 0)) [
  | inr e ↦ rw e ((object_flags_lem p.flags v.flags).0)
  | inl e ↦ elim (Bool-cases (p.type == 0)) [
    | inr f ↦ rw (e, f) ((type_flags_lem p.flags v.flags).0)
    | inl f ↦ rw (e, f) v.flags
  ]
]

-- Serialising succeeds, and gives the flags, the channel, the event, the identifier and the payload
-- up to its first NUL.
pub serialize_lem :
    (p : Packet)
    → IsPacket p
    → serialize p ≡ some ((header p ++ id_bytes p) ++ payload_bytes p.length p.payload)
serialize_lem p v =
    let (b1, e1, w1) =
      writeu-Written new [] 1 (wire_flags p) fresh (omega arith)
        (omega (arith, wire_flags-lt p v)) in
    let (b2, e2, w2) =
      writeu-Written b1 _ 1 p.channel w1 (omega arith) (omega (arith, v.channel)) in
    let (b3, e3, w3) = writeu-Written b2 _ 2 p.event w2 (omega arith) (omega (arith, v.event)) in
    let (b4, e4, w4) = write_id-Written b3 _ p v w3 in
    let (b5, e5, w5) = write_payload-Written b4 _ p.length p.payload w4 in
    serialize_runs p b1 b2 b3 b4 b5 e1 e2 e3 e4 e5 ∙ ap some (out-Written b5 _ w5)
