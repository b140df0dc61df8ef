-- ===== src/Graphics/Passes/Delete.antt =====
-- graphics/: what deleting an entry of a pass comes to.
use intense_logic.Base.{
  ℕ, zero, suc, ◌+◌, ◌-◌, ◌<◌, ◌≡◌, refl, ap, ◌∙◌, inl, inr, Bool, true, false, some, List, [], ◌∷◌,
  ◌++◌, arith, ltb, if◌then◌else◌, length, get_elem?, take, Bool-cases,
}
use mathlib.Core.Option
use intense_logic.Base.{length-take}
use intense_logic.Array.{Array, fastremove, find_from, find}
use intense_logic.Array.Valid.{IsValid}
use intense_logic.Graphics.Passes.{del_entry}

module _ {A : Type 0} (p : A → Bool) where
  -- A search of one more element
  find_from-snoc :
      (xs : List A) (y : A) (i : ℕ)
      → find_from p (xs ++ (y ∷ [])) i ≡ (
          if ltb (find_from p xs i) (i + length xs)
          then find_from p xs i
          else if p y
          then i + length xs
          else i + length xs + 1)
  unfolding find_from
  find_from-snoc [] y i = ground arith
  find_from-snoc (x ∷ xs) y i = elim (Bool-cases (p x)) [
    | inl e ↦ rw e (ground arith)
    | inr e ↦ rw e (ground (arith, find_from-snoc xs y (i + 1)))
  ]

  take_last :
      (n : ℕ) (xs : List A) (y : A)
      → get_elem? xs n ≡ some y
      → take (n + 1) xs ≡ take n xs ++ (y ∷ [])
  take_last n [] y e = cc
  take_last zero (x ∷ xs) y e = ground arith
  take_last (suc n) (x ∷ xs) y e =
      ap (λ k. take k (x ∷ xs)) {x = suc n + 1} {y = suc (n + 1)} (omega arith)
      ∙ ap (λ r. x ∷ r) (take_last n xs y e)

  element : (xs : List A) (i : ℕ) → i < length xs → (x : A) × (get_elem? xs i ≡ some x)
  element [] i h = absurd (omega arith)
  element (x ∷ xs) zero h = (x, refl)
  element (x ∷ xs) (suc i) h = element xs i (omega arith)

  -- Where the search of all entries stops, from the search of all but the last one
  find_last :
      (a : Array A) (y : A)
      → IsValid a
      → 0 < a.length
      → get_elem? a.mem (a.length - 1) ≡ some y
      → find p a ≡ (
          if ltb (find_from p (take (a.length - 1) a.mem) 0) (a.length - 1)
          then find_from p (take (a.length - 1) a.mem) 0
          else if p y
          then a.length - 1
          else a.length)
  unfolding find
  find_last a y v h e =
      let n = a.length - 1 in
      let long : length (take n a.mem) ≡ n =
        omega (arith, length-take n a.mem, v.storage, v.fits) in
      ap (λ k. find_from p (take k a.mem) 0) {x = a.length} {y = n + 1} (omega arith)
      ∙ ap (λ l. find_from p l 0) (take_last n a.mem y e)
      ∙ find_from-snoc (take n a.mem) y 0
      ∙ ground (arith, long)

  -- An entry is deleted as `IL_FIND` and `IL_FASTREMOVE` do it: the first one that is the same goes,
  -- and if there is none the list stays. The list is not empty.
  pub del_entry_lem :
      (a : Array A)
      → IsValid a
      → 0 < a.length
      → del_entry p a ≡ (
          if ltb (find p a) a.length
          then Option.map (λ b. (true, b)) (fastremove a (find p a))
          else some (false, a))
  unfolding del_entry fastremove
  del_entry_lem a v h =
      let (y, e) = element a.mem (a.length - 1) (omega (arith, v.storage, v.fits)) in
      rw (find_last a y v h e, e) (ground arith)
