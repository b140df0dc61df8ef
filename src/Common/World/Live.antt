-- ===== src/Common/World/Live.antt =====
-- common/world.c: positionables are given out and destroyed.
use intense_logic.Base.{contains, contains-append}
use intense_logic.Base.{ℕ, ◌<◌, ◌≡◌, Bool, true, false, not, ◌&&◌, arith, ltb, ◌==◌, if◌then◌else◌}
use intense_logic.Array.{contents}
use intense_logic.Array.Valid.{contents-append, IsValid}
use intense_logic.Common.World.{World, destroy}
use intense_logic.Common.World.Slots.{IsFreeList, append-IsFreeList}

-- The arrays are in step, and the free list holds distinct slots.
pub record IsWorld {F S : Type 0} (w : World F S) : Type 0 where
  pub positions : IsValid w.positions
  pub rotations : IsValid w.rotations
  pub sizes : IsValid w.sizes
  pub velocities : IsValid w.velocities
  pub last_updates : IsValid w.last_updates
  pub storages : IsValid w.storages
  pub rotations_length : (w.rotations).length ≡ (w.positions).length
  pub sizes_length : (w.sizes).length ≡ (w.positions).length
  pub velocities_length : (w.velocities).length ≡ (w.positions).length
  pub last_updates_length : (w.last_updates).length ≡ (w.positions).length
  pub storages_length : (w.storages).length ≡ (w.positions).length
  pub free_list : IsFreeList w.free_list (w.positions).length

-- A slot that has been given out and not been destroyed.
unfoldable pub is_live : {F S : Type 0} → World F S → ℕ → Bool
is_live w id = ltb id (w.positions).length && not (contains (contents w.free_list) id)

live_cases :
    {F S : Type 0} (w : World F S) (id : ℕ)
    → is_live w id ≡ true
    → (id < (w.positions).length) × (contains (contents w.free_list) id ≡ false)
unfolding is_live
live_cases w id h = ground arith

-- Destroying a slot in use keeps the world well formed, and takes that slot alone out of use.
pub destroy_lem :
    {F S : Type 0} (w : World F S) (id : ℕ)
    → IsWorld w
    → is_live w id ≡ true
    → IsWorld (destroy w id)
      × ((j : ℕ) → is_live (destroy w id) j ≡ (if id == j then false else is_live w j))
unfolding destroy is_live
destroy_lem w id v l =
    let (h, n) = live_cases w id l in
    (
      record {
        positions = v.positions;
        rotations = v.rotations;
        sizes = v.sizes;
        velocities = v.velocities;
        last_updates = v.last_updates;
        storages = v.storages;
        rotations_length = v.rotations_length;
        sizes_length = v.sizes_length;
        velocities_length = v.velocities_length;
        last_updates_length = v.last_updates_length;
        storages_length = v.storages_length;
        free_list = append-IsFreeList w.free_list (w.positions).length id v.free_list h n;
      },
      λ j.
          rw
            (
              contents-append 0 w.free_list id (v.free_list).valid,
              contains-append (contents w.free_list) id j,
            )
            (ground arith),
    )
