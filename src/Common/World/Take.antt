-- ===== src/Common/World/Take.antt =====
-- common/world.c: positionables that are given out.
use intense_logic.Base.{contains, contains-append}
use intense_logic.Base.{
  ne→==_false, le→ltb_false, lt→ltb, get_elem?-get_or, ℕ, ◌+◌, ◌-◌, ◌<◌, ◌≡◌, refl, sym, ap, ◌∙◌,
  true, false, not, ◌&&◌, some, List, [], ◌∷◌, ◌++◌, arith, ltb, ◌==◌, if◌then◌else◌, get_elem?,
  take, dec_lt, ℕ_discrete,
}
use intense_logic.Array.{contents}
use intense_logic.Array.Valid.{append_length}
use intense_logic.Math.Scalar.{Scalar}
use intense_logic.Common.World.{zero_vec, World, positionable_new, new_slot}
use intense_logic.Common.World.Slots.{IsFreeList, pop-IsFreeList, pop, contents-pop}
use intense_logic.Common.World.Live.{IsWorld, is_live}
use intense_logic.Common.World.Create.{new_slot-IsWorld, new_slot_id}

back_in_use :
    (id j n : ℕ) (free : List ℕ)
    → contains free id ≡ false
    → id < n
    → (ltb j n && not (contains free j))
      ≡ (if id == j then true else (ltb j n && not (if id == j then true else contains free j)))
back_in_use id j n free h k = elim (ℕ_discrete id j) [
  | yes e ↦
      let same : (ltb id n && not (contains free id)) ≡ (
          if id == id
          then true
          else (ltb id n && not (if id == id then true else contains free id))) =
        ground arith in
      ap (λ k. ltb k n && not (contains free k)) (sym e)
      ∙ same
      ∙ ap
          (λ k.
            if id == k then true else (ltb k n && not (if id == k then true else contains free k)))
          e
  | no e ↦ rw (ne→==_false id j e) refl
]

past_end : (n : ℕ) → (ltb n n && true) ≡ false
past_end n = ground arith

one_more :
    (j m n : ℕ) → m ≡ n + 1 → (ltb j m && true) ≡ (if n == j then true else (ltb j n && true))
one_more j m n e = ground arith

module _ {F S : Type 0} (s : Scalar F) (new_table : S) where
  last_free :
      (w : World F S)
      → IsWorld w
      → 0 < (w.free_list).length
      → (id : ℕ) × (get_elem? (w.free_list).mem ((w.free_list).length - 1) ≡ some id)
  last_free w v h = (
    _,
    get_elem?-get_or (w.free_list).mem ((w.free_list).length - 1) 0
        (omega (arith, ((v.free_list).valid).storage, ((v.free_list).valid).fits)),
  )

  takes_free :
      (w : World F S) (id : ℕ)
      → 0 < (w.free_list).length
      → get_elem? (w.free_list).mem ((w.free_list).length - 1) ≡ some id
      → positionable_new s new_table w ≡ some (id, record w { free_list = pop w.free_list })
  unfolding positionable_new
  takes_free w id h e = rw (lt→ltb 0 (w.free_list).length h, e) refl

  takes_new :
      (w : World F S)
      → IsWorld w
      → (w.free_list).length ≡ 0
      → positionable_new s new_table w ≡ some ((w.positions).length, new_slot s new_table w)
  unfolding positionable_new
  takes_new w v h =
      rw (le→ltb_false 0 (w.free_list).length (omega arith))
        (ap (λ n. some (n, new_slot s new_table w)) (new_slot_id s new_table w v))

  reuse-IsWorld :
      (w : World F S)
      → IsWorld w
      → IsFreeList (pop w.free_list) (w.positions).length
      → IsWorld (record w { free_list = pop w.free_list })
  reuse-IsWorld w v free = record {
    positions = v.positions;
    rotations = v.rotations;
    sizes = v.sizes;
    velocities = v.velocities;
    last_updates = v.last_updates;
    storages = v.storages;
    rotations_length = v.rotations_length;
    sizes_length = v.sizes_length;
    velocities_length = v.velocities_length;
    last_updates_length = v.last_updates_length;
    storages_length = v.storages_length;
    free_list = free;
  }

  reuse_live :
      (w : World F S) (id : ℕ)
      → contents w.free_list ≡ contents (pop w.free_list) ++ (id ∷ [])
      → contains (contents (pop w.free_list)) id ≡ false
      → id < (w.positions).length
      → (is_live w id ≡ false)
        × ((j : ℕ)
            → is_live (record w { free_list = pop w.free_list }) j
              ≡ (if id == j then true else is_live w j))
  unfolding is_live
  reuse_live w id c out small = (
    rw (c, contains-append (contents (pop w.free_list)) id id) (ground arith),
    λ j.
        rw (c, contains-append (contents (pop w.free_list)) id j)
          (back_in_use id j (w.positions).length (contents (pop w.free_list)) out small),
  )

  new_live :
      (w : World F S)
      → IsWorld w
      → (w.free_list).length ≡ 0
      → (is_live w (w.positions).length ≡ false)
        × ((j : ℕ)
            → is_live (new_slot s new_table w) j
              ≡ (if (w.positions).length == j then true else is_live w j))
  unfolding is_live new_slot
  new_live w v e =
      let none_free : contents w.free_list ≡ [] = ap (λ n. take n (w.free_list).mem) e in
      rw none_free (
        past_end (w.positions).length,
        λ j.
            one_more j _ (w.positions).length
              (append_length (zero_vec s new_table) w.positions (zero_vec s new_table) v.positions),
      )

  -- `il_positionable_new` gives a slot that was not in use, keeps the world well formed, and puts
  -- that slot alone into use.
  pub positionable_new_lem :
      (w : World F S)
      → IsWorld w
      → (id : ℕ) × (w' : World F S) × (positionable_new s new_table w ≡ some (id, w'))
        × IsWorld w'
        × (is_live w id ≡ false)
        × ((j : ℕ) → is_live w' j ≡ (if id == j then true else is_live w j))
  positionable_new_lem w v = elim (dec_lt 0 (w.free_list).length) [
    | yes h ↦
        let (id, e) = last_free w v h in
        let c = contents-pop w.free_list id h e in
        let (free, out, small) = pop-IsFreeList w.free_list (w.positions).length id v.free_list c in
        let (off, on) = reuse_live w id c out small in
        (
          id,
          record w { free_list = pop w.free_list },
          takes_free w id h e,
          reuse-IsWorld w v free,
          off,
          on,
        )
    | no h ↦
        let (off, on) = new_live w v (omega arith) in
        (
          (w.positions).length,
          new_slot s new_table w,
          takes_new w v (omega arith),
          new_slot-IsWorld s new_table w v,
          off,
          on,
        )
  ]
