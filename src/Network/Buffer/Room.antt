-- ===== src/Network/Buffer/Room.antt =====
-- network/buffer.c: room for what is written.
use intense_logic.Base.{
  le→leb, take_all, take-append, lt→leb_false, le→ltb_false, ℕ, zero, suc, ◌+◌, ◌-◌, ◌≤◌, ◌<◌, ◌≡◌,
  ap, ap₂, ◌∙◌, some, List, ◌++◌, arith, length, take, drop, replicate, dec_lt,
}
use intense_logic.Array.{Array, resize, autoresize, grow_to}
use intense_logic.Array.Valid.{capacity-autoresize}
use intense_logic.Network.Buffer.{Buf, make_room, needed}

-- The cursor stands on a byte boundary behind `out`, `n` bytes of room have been asked for, and
-- all storage behind the cursor is zero.
pub record Written (b : Buf) (out : List ℕ) (n : ℕ) : Type 0 where
  pub tail : ℕ
  pub aligned : b.bit ≡ 0
  pub at_end : b.byte ≡ length out
  pub long : (b.buf).length ≡ length out + n
  pub mem : (b.buf).mem ≡ out ++ replicate tail 0
  pub storage : (b.buf).capacity ≡ length out + tail
  pub room : n ≤ tail

-- Storage that ends in zeros still does after it has grown.
record ZeroTail (a : Array ℕ) (out : List ℕ) : Type 0 where
  tail : ℕ
  at_end : a.length ≡ length out
  mem : a.mem ≡ out ++ replicate tail 0
  storage : a.capacity ≡ length out + tail

pub drop-replicate : (n m k : ℕ) (z : ℕ) → k ≡ n - m → drop m (replicate n z) ≡ replicate k z
drop-replicate n zero k z e = ap (λ j. replicate j z) (omega arith)
drop-replicate zero (suc m) k z e = ap (λ j. replicate j z) {x = 0} (omega arith)
drop-replicate (suc n) (suc m) k z e = drop-replicate n m k z (omega arith)

resize-ZeroTail :
    (a : Array ℕ) (out : List ℕ) (n : ℕ)
    → ZeroTail a out
    → a.length ≤ n
    → ZeroTail (resize 0 a n) out
unfolding resize
resize-ZeroTail a out n t h = rw (le→ltb_false n a.length h) (record {
  tail = n - length out;
  at_end = t.at_end;
  mem =
      ap (λ r. r ++ drop a.length (replicate n 0))
        (ap₂ take t.at_end t.mem
          ∙ take-append (length out) out (replicate t.tail 0) (omega arith)
          ∙ take_all (length out) out (omega arith))
      ∙ ap (λ r. out ++ r) (drop-replicate n a.length (n - length out) 0 (omega (arith, t.at_end)));
  storage = omega (arith, t.at_end);
})

autoresize-ZeroTail : (a : Array ℕ) (out : List ℕ) → ZeroTail a out → ZeroTail (autoresize 0 a) out
unfolding autoresize
autoresize-ZeroTail a out t = resize-ZeroTail a out _ t (ground (arith, t.at_end, t.storage))

-- The loop of `ilN_buf_makeRoom` ends, since every round adds an element at least.
grow_to-ZeroTail :
    (fuel id : ℕ) (a : Array ℕ) (out : List ℕ)
    → ZeroTail a out
    → id < a.capacity + fuel
    → (b : Array ℕ) × (grow_to 0 (suc fuel) id a ≡ some b) × ZeroTail b out × (id < b.capacity)
unfolding grow_to
grow_to-ZeroTail zero id a out t h =
    (a, rw (lt→leb_false a.capacity id (omega arith)), t, omega arith)
grow_to-ZeroTail (suc fuel) id a out t h = elim (dec_lt id a.capacity) [
  | yes room ↦ (a, rw (lt→leb_false a.capacity id room), t, room)
  | no full ↦
      let (b, e, u, r) =
        grow_to-ZeroTail fuel id (autoresize 0 a) out (autoresize-ZeroTail a out t)
          (omega (arith, capacity-autoresize 0 a)) in
      (b, rw (le→leb a.capacity id (omega arith)) e, u, r)
]

-- `ilN_buf_makeRoom` succeeds.
pub make_room-Written :
    (b : Buf) (out : List ℕ) (n : ℕ)
    → Written b out 0
    → (c : Buf) × (make_room b n ≡ some c) × Written c out n
unfolding make_room
make_room-Written b out n w =
    let t : ZeroTail b.buf out = record {
      tail = w.tail;
      at_end = omega (arith, w.long);
      mem = w.mem;
      storage = w.storage;
    } in
    let (a, e, u, r) = grow_to-ZeroTail (suc (needed b n)) (needed b n) b.buf out t (omega arith) in
    (
      record b { buf = record a { length = a.length + n } },
      rw e,
      record {
        tail = u.tail;
        aligned = w.aligned;
        at_end = w.at_end;
        long = omega (arith, u.at_end);
        mem = u.mem;
        storage = u.storage;
        room = omega (arith, r, u.storage, w.at_end);
      },
    )
