-- ===== src/Network/Packet/Decode.antt =====
-- network/packet.c: a packet that `ilN_packet_serialize` has written is read back.
use intense_logic.Base.{
  take_all, length-append, ℕ, zero, suc, ◌+◌, ◌-◌, ◌*◌, ◌/◌, ◌%◌, ◌^◌, ◌≤◌, ◌<◌, min, ◌≡◌, refl,
  sym, ap, ap₂, ◌∙◌, ◌≢◌, ◌↔◌, ◌⊎◌, inl, inr, Bool, true, false, not, ◌&&◌, ◌||◌, Option, none,
  some, List, [], ◌∷◌, ◌++◌, map, append-nil, append_assoc, arith, ltb, leb, ◌==◌, if◌then◌else◌,
  length, get_elem?, get_or, set, take, drop, replicate, copy_at, Bool-cases, dec_lt, ℕ_discrete,
}
use native.Mathlib.Nat.{mod-eq_of_lt}
use intense_logic.Base
use intense_logic.Base.{◌>>=◌, bind_some}
use intense_logic.Base.{strnlen}
use intense_logic.Network.Buffer.{Buf, new, write_in, readu, readc, tell}
use intense_logic.Network.Buffer.Write.{big_endian, write_in-Written}
use intense_logic.Network.Buffer.Read.{
  Readable, Width, w8, w16, w32, readu_lem, readc_lem, big_endian-AllBytes, length-big_endian,
  from_bytes-big_endian,
}
use intense_logic.Network.Packet.{Packet, serialize, deserialize, read_id, wire_flags}
use intense_logic.Network.Packet.Flags.{object_flags_lem, type_flags_lem}
use intense_logic.Network.Packet.Encode.{
  IsPacket, header, id_bytes, payload_bytes, serialize_lem, wire_flags-lt, fresh,
}

-- A buffer all of whose bytes are in use, in front of `todo`.
abbrev Left : Buf → List ℕ → List ℕ → List ℕ → Type 0
Left b out todo rest = Readable b out todo rest 0 × (length out + length todo ≤ (b.buf).capacity)

abbrev past : Buf → ℕ → Buf
past b k = record b { byte = b.byte + k; bit = 0 }

split-Readable :
    (b : Buf) (out bytes more rest : List ℕ)
    → Left b out (bytes ++ more) rest
    → Readable b out bytes (more ++ rest) (length more)
split-Readable b out bytes more rest (r, _) = record {
  aligned = r.aligned;
  at = r.at;
  mem = r.mem ∙ ap (λ m. out ++ m) (append_assoc bytes more rest);
  long = omega (arith, r.long, length-append bytes more);
}

past-Left :
    (b : Buf) (out bytes more rest : List ℕ) (k : ℕ)
    → length bytes ≡ k
    → Left b out (bytes ++ more) rest
    → Left (past b k) (out ++ bytes) more rest
past-Left b out bytes more rest k e (r, c) = (
  record {
    aligned = refl;
    at = omega (arith, r.at, length-append out bytes);
    mem =
        r.mem
        ∙ ap (λ m. out ++ m) (append_assoc bytes more rest)
        ∙ sym (append_assoc out bytes (more ++ rest));
    long = omega (arith, r.long, length-append out bytes, length-append bytes more);
  },
  omega (arith, length-append out bytes, length-append bytes more),
)

-- A field of the packet is read back, and the cursor stands behind it.
read_field :
    (b : Buf) (out more rest : List ℕ) (k i : ℕ)
    → Width k
    → i < 2 ^ (8 * k)
    → Left b out (big_endian k i ++ more) rest
    → (readu b (8 * k) ≡ some (i, past b k)) × Left (past b k) (out ++ big_endian k i) more rest
read_field b out more rest k i w h l = (
  readu_lem b out (big_endian k i) (more ++ rest) (length more) k
        (split-Readable b out (big_endian k i) more rest l) (big_endian-AllBytes k i)
        (length-big_endian k i)
      ∙ ap (λ n. some (n, past b k)) (from_bytes-big_endian i w h),
  past-Left b out (big_endian k i) more rest k (length-big_endian k i) l,
)

new-Left :
    (bytes : List ℕ)
    → (c : Buf) × (write_in new bytes ≡ some c)
      × (c.byte ≡ 0)
      × (rest : List ℕ) × Left c [] bytes rest
new-Left bytes =
    let (c, run, at, w) = write_in-Written new [] bytes fresh in
    (
      c,
      run,
      at,
      replicate w.tail 0,
      (
        record { aligned = w.aligned; at = at; mem = w.mem; long = omega (arith, w.long) },
        omega (arith, w.storage),
      ),
    )

-- The packet that arrives: the flags are those on the wire, and a type comes as an object.
abbrev pub received : Packet → Packet
received p = record p {
  flags = wire_flags p;
  object = if not (p.object == 0) then p.object else p.type;
  type = 0;
}

-- What a packet must be to arrive: an identifier, and a payload without a NUL whose length is right.
pub record IsWhole (p : Packet) (bytes : List ℕ) : Type 0 where
  pub packet : IsPacket p
  pub identified : (p.object == 0) ≡ false ⊎ ((p.object == 0) ≡ true) × ((p.type == 0) ≡ false)
  pub payload : p.payload ≡ some bytes
  pub text : strnlen bytes p.length ≡ length bytes
  pub measured : p.length ≡ length bytes
  pub short : length bytes < 2 ^ 16

read_id-Left :
    (b : Buf) (out rest : List ℕ) (p : Packet) (bytes : List ℕ)
    → IsWhole p bytes
    → Left b out (id_bytes p ++ bytes) rest
    → (read_id b (wire_flags p) ≡ some ((received p).object, past b 4))
      × Left (past b 4) (out ++ id_bytes p) bytes rest
unfolding read_id wire_flags
read_id-Left b out rest p bytes v l = elim v.identified [
  | inl e ↦
      rw (e, (object_flags_lem p.flags v.packet.flags).1)
        (read_field b out bytes rest 4 p.object w32 (omega (arith, v.packet.object)) (rw e at l))
  | inr (e, f) ↦
      rw
        (e, f, (type_flags_lem p.flags v.packet.flags).1, (type_flags_lem p.flags v.packet.flags).2)
        (read_field b out bytes rest 4 p.type w32 (omega (arith, v.packet.type)) (rw (e, f) at l))
]

deserialize_runs :
    (bytes : List ℕ) (b0 b4 b5 : Buf) (flags channel event object size : ℕ)
    (payload : Option (List ℕ))
    → flags < 2 ^ 8
    → channel < 2 ^ 8
    → event < 2 ^ 16
    → object < 2 ^ 32
    → size < 2 ^ 16
    → write_in new bytes ≡ some b0
    → readu b0 8 ≡ some (flags, past b0 1)
    → readu (past b0 1) 8 ≡ some (channel, past (past b0 1) 1)
    → readu (past (past b0 1) 1) 16 ≡ some (event, past (past (past b0 1) 1) 2)
    → read_id (past (past (past b0 1) 1) 2) flags ≡ some (object, b4)
    → Base.length bytes - tell b4 / 8 ≡ size
    → readc b4 size ≡ some (payload, b5)
    → deserialize bytes
      ≡ some (record {
        flags = flags;
        channel = channel;
        event = event;
        object = object;
        type = 0;
        length = size;
        payload = payload;
      })
unfolding deserialize
deserialize_runs bytes b0 b4 b5 flags channel event object size payload hf hc he ho hs e0 e1 e2 e3
      e4 e5 e6 =
    rw
      (
        e0,
        e1,
        e2,
        e3,
        mod-eq_of_lt hf,
        e4,
        e5,
        mod-eq_of_lt hs,
        e6,
        mod-eq_of_lt hc,
        mod-eq_of_lt he,
        mod-eq_of_lt ho,
      )
      refl

strnlen_none :
    (p : Packet) (bytes : List ℕ) → IsWhole p bytes → payload_bytes p.length p.payload ≡ bytes
strnlen_none p bytes v =
    ap (payload_bytes p.length) v.payload
    ∙ ap (λ n. take n bytes) v.text
    ∙ take_all (length bytes) bytes (omega arith)

-- The fields of a whole packet, in the order in which they are read.
abbrev fields : Packet → List ℕ → List ℕ
fields p bytes =
    big_endian 1 (wire_flags p)
    ++ (big_endian 1 p.channel ++ (big_endian 2 p.event ++ (id_bytes p ++ bytes)))

encoded-fields :
    (p : Packet) (bytes : List ℕ) → IsWhole p bytes → serialize p ≡ some (fields p bytes)
encoded-fields p bytes v =
    serialize_lem p v.packet
    ∙ ap (λ d. some ((header p ++ id_bytes p) ++ d)) (strnlen_none p bytes v)
    ∙ ap some (append_assoc (header p) (id_bytes p) bytes)

received_object-lt : (p : Packet) → IsPacket p → (received p).object < 2 ^ 32
received_object-lt p v = ground (arith, v.object, v.type)

length-id_bytes : (p : Packet) (bytes : List ℕ) → IsWhole p bytes → length (id_bytes p) ≡ 4
length-id_bytes p bytes v = elim v.identified [ inl e ↦ rw e refl | inr (e, f) ↦ rw (e, f) refl ]

deserialize-fields :
    (p : Packet) (bytes : List ℕ)
    → IsWhole p bytes
    → deserialize (fields p bytes) ≡ some (received p)
unfolding tell
deserialize-fields p bytes v =
    let q = v.packet in
    let (b, e0, at, rest, l0) = new-Left (fields p bytes) in
    let (e1, l1) = read_field b _ _ rest 1 (wire_flags p) w8 (wire_flags-lt p q) l0 in
    let (e2, l2) = read_field _ _ _ rest 1 p.channel w8 q.channel l1 in
    let (e3, l3) = read_field _ _ _ rest 2 p.event w16 q.event l2 in
    let (e4, l4) = read_id-Left _ _ rest p bytes v l3 in
    let size : length (fields p bytes) - tell (past (past (past (past b 1) 1) 2) 4) / 8
        ≡ length bytes =
      omega (arith, at, length-append (id_bytes p) bytes, length-id_bytes p bytes v) in
    deserialize_runs (fields p bytes) b _ _ (wire_flags p) p.channel p.event (received p).object
      (length bytes) (some bytes) (wire_flags-lt p q) q.channel q.event (received_object-lt p q)
      v.short e0 e1 e2 e3 e4 size (readc_lem _ _ bytes rest l4.0 l4.1)
    ∙ ap₂ (λ n d. some (record (received p) { length = n; payload = d })) (sym v.measured)
        (sym v.payload)

-- A packet with an identifier, and a payload of its stated length and without a NUL, arrives: the
-- fields are those sent, with the flag bits of the identifier, but a type arrives in `object`.
pub deserialize-serialize :
    (p : Packet) (bytes : List ℕ)
    → IsWhole p bytes
    → (serialize p >>= deserialize) ≡ some (received p)
deserialize-serialize p bytes v =
    bind_some deserialize (encoded-fields p bytes v) ∙ deserialize-fields p bytes v
