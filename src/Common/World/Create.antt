-- ===== src/Common/World/Create.antt =====
-- common/world.c: new worlds and new slots.
use intense_logic.Base.{ℕ, ◌-◌, ◌≡◌, refl, Bool, false, ◌&&◌, arith, ltb}
use intense_logic.Array.{Array, append, empty, resize}
use intense_logic.Array.Valid.{
  IsValid, append-IsValid, append_length, empty-IsValid, resize-IsValid,
}
use intense_logic.Math.Scalar.{Scalar}
use intense_logic.Common.World.{zero_vec, World, world_new, new_slot}
use intense_logic.Common.World.Slots.{IsFreeList}
use intense_logic.Common.World.Live.{IsWorld, is_live}

in_step :
    {A B : Type 0} (z x : A) (y u : B) (a : Array A) (b : Array B)
    → IsValid a
    → IsValid b
    → a.length ≡ b.length
    → (append z a x).length ≡ (append y b u).length
in_step z x y u a b v w e = omega (arith, append_length z a x v, append_length y b u w)

nothing_free : (n : ℕ) → IsFreeList empty n
nothing_free n = record {
  valid = empty-IsValid;
  in_range = λ i id e. absurd (ground arith);
  distinct = λ i j id e. absurd (ground arith);
}

none_live : (j n : ℕ) (b : Bool) → n ≡ 0 → (ltb j n && b) ≡ false
none_live j n b e = ground arith

module _ {F S : Type 0} (s : Scalar F) (new_table : S) where
  pub new_slot-IsWorld : (w : World F S) → IsWorld w → IsWorld (new_slot s new_table w)
  unfolding new_slot
  new_slot-IsWorld w v =
      let free = v.free_list in
      record {
        positions = append-IsValid _ w.positions _ v.positions;
        rotations = append-IsValid _ w.rotations _ v.rotations;
        sizes = append-IsValid _ w.sizes _ v.sizes;
        velocities = append-IsValid _ w.velocities _ v.velocities;
        last_updates = append-IsValid _ w.last_updates _ v.last_updates;
        storages = append-IsValid _ w.storages _ v.storages;
        rotations_length =
            in_step _ _ _ _ w.rotations w.positions v.rotations v.positions v.rotations_length;
        sizes_length = in_step _ _ _ _ w.sizes w.positions v.sizes v.positions v.sizes_length;
        velocities_length =
            in_step _ _ _ _ w.velocities w.positions v.velocities v.positions v.velocities_length;
        last_updates_length =
            in_step _ _ _ _ w.last_updates w.positions v.last_updates v.positions
              v.last_updates_length;
        storages_length =
            in_step _ _ _ _ w.storages w.positions v.storages v.positions v.storages_length;
        free_list = record {
          valid = free.valid;
          in_range = λ i id e. omega (
            arith,
            free.in_range i id e,
            append_length (zero_vec s new_table) w.positions (zero_vec s new_table) v.positions,
          );
          distinct = free.distinct;
        };
      }

  pub new_slot_id :
      (w : World F S)
      → IsWorld w
      → ((new_slot s new_table w).positions).length - 1 ≡ (w.positions).length
  unfolding new_slot
  new_slot_id w v =
      omega
        (arith, append_length (zero_vec s new_table) w.positions (zero_vec s new_table) v.positions)

  -- A new world is well formed, and no slot of it is in use.
  pub world_new-IsWorld :
      (prealloc : ℕ)
      → IsWorld (world_new s new_table prealloc)
        × ((j : ℕ) → is_live (world_new s new_table prealloc) j ≡ false)
  unfolding world_new is_live resize
  world_new-IsWorld prealloc = (
    record {
      positions = resized _;
      rotations = resized _;
      sizes = resized _;
      velocities = resized _;
      last_updates = resized _;
      storages = resized _;
      rotations_length = refl;
      sizes_length = refl;
      velocities_length = refl;
      last_updates_length = refl;
      storages_length = refl;
      free_list = nothing_free 0;
    },
    λ j. none_live j 0 _ refl,
  )
    where
      resized : {A : Type 0} (z : A) → IsValid (resize z empty prealloc)
      resized z = resize-IsValid z empty prealloc empty-IsValid (omega arith)
