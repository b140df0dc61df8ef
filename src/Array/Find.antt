-- ===== src/Array/Find.antt =====
-- util/array.h: where `IL_FIND` stops.
use intense_logic.Base.{
  some-injective, ℕ, zero, suc, ◌+◌, ◌-◌, ◌≤◌, ◌<◌, ◌≡◌, sym, ap, ◌∙◌, ◌⊎◌, inl, inr, Bool, true,
  false, some, List, [], ◌∷◌, arith, length, get_elem?, Bool-cases,
}
use intense_logic.Array.{find_from}

too_far : (i j : ℕ) → ¬ (i + j < i)
too_far i j h = omega arith

module _ {ℓ} {A : Type ℓ} (p : A → Bool) where
  pub find_from_bounds :
      (xs : List A) (i : ℕ) → (i ≤ find_from p xs i) × (find_from p xs i ≤ i + length xs)
  unfolding find_from
  find_from_bounds [] i = (omega arith, omega arith)
  find_from_bounds (x ∷ xs) i = elim (Bool-cases (p x)) [
    | inl e ↦ rw e (omega arith, omega arith)
    | inr e ↦ let (a, b) = find_from_bounds xs (i + 1) in rw e (omega (arith, a), omega (arith, b))
  ]

  -- `IL_FIND` stops at an element for which the condition holds, or at the length.
  pub find_from_lem :
      (xs : List A) (i : ℕ)
      → (find_from p xs i ≡ i + length xs)
        ⊎ ((x : A) × (get_elem? xs (find_from p xs i - i) ≡ some x) × (p x ≡ true))
  unfolding find_from
  find_from_lem [] i = inl (omega arith)
  find_from_lem (x ∷ xs) i = elim (Bool-cases (p x)) [
    | inl e ↦ rw e (inr (x, ap (get_elem? (x ∷ xs)) {y = 0} (omega arith), e))
    | inr e ↦ rw e (elim (find_from_lem xs (i + 1)) [
      | inl f ↦ inl (omega (arith, f))
      | inr (y, f, g) ↦ inr (
        y,
        ap (get_elem? (x ∷ xs)) {y = suc (find_from p xs (i + 1) - (i + 1))}
              (omega (arith, find_from_bounds xs (i + 1)))
            ∙ f,
        g,
      )
    ])
  ]

  -- The condition holds of no element in front of where it stops.
  pub find_from_first :
      (xs : List A) (i j : ℕ) (x : A)
      → i + j < find_from p xs i
      → get_elem? xs j ≡ some x
      → p x ≡ false
  unfolding find_from
  find_from_first [] i j x h e = absurd (ground arith)
  find_from_first (y ∷ xs) i zero x h e = elim (Bool-cases (p y)) [
    | inl f ↦ absurd (too_far i _ (rw f at h))
    | inr f ↦ ap p (sym (some-injective e)) ∙ f
  ]
  find_from_first (y ∷ xs) i (suc j) x h e = elim (Bool-cases (p y)) [
    | inl f ↦ absurd (too_far i _ (rw f at h))
    | inr f ↦ find_from_first xs (i + 1) j x (omega (arith, (rw f at h))) e
  ]
