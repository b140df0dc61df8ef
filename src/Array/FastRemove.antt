-- ===== src/Array/FastRemove.antt =====
-- util/array.h: what `IL_FASTREMOVE` does to the elements.
use intense_logic.Base.{
  take-set_ge, lt→ltb, take-set, length-set, le→ltb_false, get_elem?-take, take-take, ne→==_false,
  ℕ, ◌-◌, ◌<◌, ◌≡◌, sym, ap, ◌∙◌, some, arith, get_elem?, set, take, dec_lt,
}
use intense_logic.Array.{set, some, get_elem?, take, Array, contents, fastremove}
use intense_logic.Array.Valid.{IsValid}

module _ {ℓ} {A : Type ℓ} where
  -- `IL_FASTREMOVE` of an index in range puts the last element in its place.
  pub fastremove_lem :
      (a : Array A) (id : ℕ) (y : A)
      → IsValid a
      → id < a.length
      → get_elem? (contents a) (a.length - 1) ≡ some y
      → (b : Array A) × (fastremove a id ≡ some b)
        × IsValid b
        × (contents b ≡ take (a.length - 1) (set (contents a) id y))
  unfolding fastremove
  fastremove_lem a id y v h e =
      let at_end : get_elem? a.mem (a.length - 1) ≡ some y =
        sym (get_elem?-take a.length (a.length - 1) a.mem (omega arith)) ∙ e in
      elim (dec_lt id (a.length - 1)) [
        | yes p ↦ (
          record a { mem = set a.mem id y; length = a.length - 1 },
          rw (ne→==_false a.length 0 (omega arith), lt→ltb id (a.length - 1) p, at_end),
          record { storage = length-set a.mem id y ∙ v.storage; fits = omega (arith, v.fits) },
          sym (take-take (a.length - 1) a.length (set a.mem id y) (omega arith))
              ∙ ap (take (a.length - 1)) (take-set a.length id a.mem y),
        )
        | no p ↦ (
          record a { length = a.length - 1 },
          rw (ne→==_false a.length 0 (omega arith), le→ltb_false id (a.length - 1) (omega arith)),
          record { storage = v.storage; fits = omega (arith, v.fits) },
          sym (take-take (a.length - 1) a.length a.mem (omega arith))
              ∙ sym (take-set_ge (a.length - 1) id (contents a) y (omega arith)),
        )
      ]
