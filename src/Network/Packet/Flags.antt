-- ===== src/Network/Packet/Flags.antt =====
-- network/packet.c: the flag bits that tell a packet's identifier, over all bytes.
use intense_logic.Base.{ltb→lt, ℕ, ◌<◌, ◌≡◌, refl, Bool, true, false, not, ◌&&◌, arith, ltb, ◌==◌}
use Prim.Native.Nat.{bit_and}
use intense_logic.Base.Bits.{table, table-get}
use intense_logic.Network.Packet.{object_flags, type_flags}

abbrev object_ok : ℕ → Bool
object_ok f = ltb (object_flags f) 256 && not (bit_and (object_flags f) 2 == 0)

abbrev type_ok : ℕ → Bool
type_ok f =
    ltb (type_flags f) 256
    && ((bit_and (type_flags f) 2 == 0) && not (bit_and (type_flags f) 1 == 0))

object_table : table 256 object_ok ≡ true
unfolding object_flags
object_table = refl

type_table : table 256 type_ok ≡ true
unfolding type_flags
type_table = refl

and_cases : (a b : Bool) → (a && b) ≡ true → (a ≡ true) × (b ≡ true)
and_cases a b h = ground arith

not-true : (b : Bool) → not b ≡ true → b ≡ false
not-true b h = ground arith

pub object_flags_lem :
    (f : ℕ) → f < 256 → (object_flags f < 256) × ((bit_and (object_flags f) 2 == 0) ≡ false)
object_flags_lem f h =
    let (small, bit) = and_cases _ _ (table-get 256 object_ok f object_table h) in
    (ltb→lt _ _ small, not-true _ bit)

pub type_flags_lem :
    (f : ℕ)
    → f < 256
    → (type_flags f < 256)
      × ((bit_and (type_flags f) 2 == 0) ≡ true)
      × ((bit_and (type_flags f) 1 == 0) ≡ false)
type_flags_lem f h =
    let (small, bits) = and_cases _ _ (table-get 256 type_ok f type_table h) in
    let (off, on) = and_cases _ _ bits in (ltb→lt _ _ small, off, not-true _ on)
