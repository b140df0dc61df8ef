-- ===== src/Common/World.antt =====
-- common/world.c: the positionables of a world, kept in parallel arrays with a list of free slots.
-- `none` is an access outside the storage.
pub mod Slots
pub mod Live
pub mod Create
pub mod Take
pub mod Next
use intense_logic.Base.{
  contains, ℕ, zero, suc, ◌+◌, ◌-◌, ◌*◌, ◌/◌, ◌%◌, ◌^◌, ◌≤◌, ◌<◌, min, ◌≡◌, refl, sym, ap, ap₂, ◌∙◌,
  ◌≢◌, ◌↔◌, ◌⊎◌, inl, inr, Bool, true, false, not, ◌&&◌, ◌||◌, Option, none, some, List, [], ◌∷◌,
  ◌++◌, map, append-nil, append_assoc, arith, ltb, leb, ◌==◌, if◌then◌else◌, length, get_elem?,
  get_or, set, take, drop, replicate, copy_at, Bool-cases, dec_lt, ℕ_discrete,
}
use intense_logic.Base.{◌>>=◌}
use mathlib.Core.Option
use intense_logic.Array.{Array, empty, contents, resize, append}
use intense_logic.Math.Scalar.{Scalar}
use intense_logic.Math.Vector.{Vec3, vec3_new}
use intense_logic.Math.Quaternion.{Quat, quat_new}

-- `struct timeval`
abbrev pub Timeval : Type 0
Timeval = ℕ × ℕ

-- `il_world`, over the floats and the tables of common/storage.c, which it does not look into.
pub record World (F S : Type 0) : Type 0 where
  pub storage : S
  pub positions : Array (Vec3 F)
  pub rotations : Array (Quat F)
  pub sizes : Array (Vec3 F)
  pub velocities : Array (Vec3 F)
  pub last_updates : Array Timeval
  pub storages : Array S
  pub free_list : Array ℕ

-- The identifier -1, as a `size_t`.
abbrev pub no_id : ℕ
no_id = 2 ^ 64 - 1

module _ {F S : Type 0} (s : Scalar F) (new_table : S) where
  abbrev pub zero_vec : Vec3 F
  zero_vec = vec3_new s s.zero s.zero s.zero

  abbrev pub zero_quat : Quat F
  zero_quat = quat_new s s.zero s.zero s.zero s.zero

  -- `il_world_new`; a new table is all zero bytes, as `calloc` makes it.
  unfoldable pub world_new : ℕ → World F S
  world_new prealloc = record {
    storage = new_table;
    positions = resize zero_vec empty prealloc;
    rotations = resize zero_quat empty prealloc;
    sizes = resize zero_vec empty prealloc;
    velocities = resize zero_vec empty prealloc;
    last_updates = resize (0, 0) empty prealloc;
    storages = resize new_table empty prealloc;
    free_list = empty;
  }

  -- A slot behind the last, for `il_positionable_new`.
  unfoldable pub new_slot : World F S → World F S
  new_slot w = record w {
    positions = append zero_vec w.positions zero_vec;
    rotations = append zero_quat w.rotations (quat_new s s.zero s.zero s.zero s.one);
    sizes = append zero_vec w.sizes (vec3_new s s.one s.one s.one);
    velocities = append zero_vec w.velocities zero_vec;
    last_updates = append (0, 0) w.last_updates (0, 0);
    storages = append new_table w.storages new_table;
  }

  -- `il_positionable_new`: a slot of the free list is taken as it was left.
  unfoldable pub positionable_new : World F S → Option (ℕ × World F S)
  positionable_new w =
      let free = w.free_list in
      let fresh = new_slot w in
      if ltb 0 free.length
      then Option.map
          (λ id. (id, record w { free_list = record free { length = free.length - 1 } }))
          (get_elem? free.mem (free.length - 1))
      else some ((fresh.positions).length - 1, fresh)

module _ {ℓ} {A : Type ℓ} where
  -- `data[id]`, and a write to it: `none` outside the storage.
  abbrev pub fetch : Array A → ℕ → Option A
  fetch a id = get_elem? a.mem id

  abbrev pub store : Array A → ℕ → A → Option (Array A)
  store a id v = if ltb id (length a.mem) then some (record a { mem = set a.mem id v }) else none

module _ {F S : Type 0} where
  -- `il_positionable_destroy`
  unfoldable pub destroy : World F S → ℕ → World F S
  destroy w id = record w { free_list = append 0 w.free_list id }

  -- `il_world_numPositionables`
  unfoldable pub num_positionables : World F S → ℕ
  num_positionables w = (w.positions).length

  -- `il_world_iter`
  unfoldable pub iter : World F S → ℕ
  iter w = if ltb (w.positions).length 1 then no_id else 0

  -- `++next.id`, which wraps, and -1 past the last slot.
  unfoldable pub step : World F S → ℕ → ℕ
  step w id = let n = (id + 1) % 2 ^ 64 in if leb (w.positions).length n then no_id else n

  -- `il_world_next`, on fuel for its calls of itself.
  unfoldable pub next_on : ℕ → World F S → ℕ → Option ℕ
  next_on zero w id = none
  next_on (suc fuel) w id =
      let rest = next_on fuel w (step w id) in
      if contains (contents w.free_list) (step w id) then rest else some (step w id)

  -- A call for each slot and one more are enough.
  unfoldable pub next : World F S → ℕ → Option ℕ
  next w id = next_on ((w.positions).length + 1) w id

  -- `il_positionable_getPosition`
  unfoldable pub get_position : World F S → ℕ → Option (Vec3 F)
  get_position w id = fetch w.positions id

  -- `il_positionable_getRotation`
  unfoldable pub get_rotation : World F S → ℕ → Option (Quat F)
  get_rotation w id = fetch w.rotations id

  -- `il_positionable_getSize`
  unfoldable pub get_size : World F S → ℕ → Option (Vec3 F)
  get_size w id = fetch w.sizes id

  -- `il_positionable_getVelocity`
  unfoldable pub get_velocity : World F S → ℕ → Option (Vec3 F)
  get_velocity w id = fetch w.velocities id

  -- `il_positionable_getLastUpdate`
  unfoldable pub get_last_update : World F S → ℕ → Option Timeval
  get_last_update w id = fetch w.last_updates id

  -- `il_positionable_getStorage`
  unfoldable pub get_storage : World F S → ℕ → Option S
  get_storage w id = fetch w.storages id

  -- `il_positionable_setPosition`
  unfoldable pub set_position : World F S → ℕ → Vec3 F → Option (World F S)
  set_position w id v = Option.map (λ a. record w { positions = a }) (store w.positions id v)

  -- `il_positionable_setRotation`
  unfoldable pub set_rotation : World F S → ℕ → Quat F → Option (World F S)
  set_rotation w id v = Option.map (λ a. record w { rotations = a }) (store w.rotations id v)

  -- `il_positionable_setSize`
  unfoldable pub set_size : World F S → ℕ → Vec3 F → Option (World F S)
  set_size w id v = Option.map (λ a. record w { sizes = a }) (store w.sizes id v)

  -- `il_positionable_setVelocity`
  unfoldable pub set_velocity : World F S → ℕ → Vec3 F → Option (World F S)
  set_velocity w id v = Option.map (λ a. record w { velocities = a }) (store w.velocities id v)

  -- `il_positionable_setLastUpdate`
  unfoldable pub set_last_update : World F S → ℕ → Timeval → Option (World F S)
  set_last_update w id v =
      Option.map (λ a. record w { last_updates = a }) (store w.last_updates id v)
