-- ===== src/Network/Tests.antt =====
-- network/ on a small packet.
use intense_logic.Base.{◌+◌, ◌*◌, ◌≡◌, refl, inr, some, [], ◌∷◌, arith}
use intense_logic.Base.{◌>>=◌}
use intense_logic.Base.{strnlen}
use intense_logic.Network.Buffer.Back.{readu-writeu}
use intense_logic.Network.Buffer.{seek, Buf, new, writeu, readu}
use intense_logic.Network.Buffer.Read.{w16, Readable}
use intense_logic.Network.Packet.{type_flags, Packet, serialize, deserialize, wire_flags}
use intense_logic.Network.Packet.Encode.{IsPacket, fresh}
use intense_logic.Network.Packet.Decode.{IsWhole, received, deserialize-serialize}

-- An event for a type, with two bytes of data.
abbrev event : Packet
event = record {
  flags = 0;
  channel = 3;
  event = 258;
  object = 0;
  type = 7;
  length = 2;
  payload = some (8 ∷ 9 ∷ []);
}

event-IsPacket : IsPacket event
event-IsPacket = record {
  flags = omega arith;
  channel = omega arith;
  event = omega arith;
  object = omega arith;
  type = omega arith;
}

event-IsWhole : IsWhole event (8 ∷ 9 ∷ [])
unfolding strnlen
event-IsWhole = record {
  packet = event-IsPacket;
  identified = inr (refl, refl);
  payload = refl;
  text = refl;
  measured = refl;
  short = omega arith;
}

deserialize-serialize_example : (serialize event >>= deserialize) ≡ some (received event)
deserialize-serialize_example = deserialize-serialize event (8 ∷ 9 ∷ []) event-IsWhole

-- The type 7 arrives as the object 7.
type_as_object :
    (serialize event >>= deserialize) ≡ some (record event { flags = 1; object = 7; type = 0 })
unfolding wire_flags type_flags
type_as_object = deserialize-serialize event (8 ∷ 9 ∷ []) event-IsWhole

-- A buffer of three bytes, in front of its second.
abbrev three_bytes : Buf
three_bytes = record {
  buf = record { mem = 4 ∷ 1 ∷ 2 ∷ []; length = 3; capacity = 3 };
  byte = 1;
  bit = 0;
}

three_bytes-Readable : Readable three_bytes (4 ∷ []) (1 ∷ 2 ∷ []) [] 0
three_bytes-Readable = record { aligned = refl; at = refl; mem = refl; long = refl }

readu-writeu_example :
    (c : Buf) × (d : Buf) × (writeu new 258 (8 * 2) ≡ some c)
    × (readu (seek c (8 * 0)).0 (8 * 2) ≡ some (258, d))
    × (d.byte ≡ 0 + 2)
    × (d.bit ≡ 0)
readu-writeu_example = readu-writeu new [] 258 w16 (omega arith) fresh
