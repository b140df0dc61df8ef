-- ===== src/Common/World/Next.antt =====
-- common/world.c: the walk over the positionables.
use intense_logic.Base.{contains, contains-index}
use intense_logic.Base.{
  ℕ, zero, suc, ◌+◌, ◌-◌, ◌≤◌, ◌<◌, ◌≡◌, refl, ◌∙◌, inl, inr, true, false, some, arith, Bool-cases,
  dec_lt, ℕ_discrete,
}
use intense_logic.Array.{contents}
use intense_logic.Common.World.Live.{IsWorld}
use intense_logic.Common.World.{World, no_id, step, next_on, next}

-- What `il_world_next` does of `id`: `j` is the least slot above `id` that is not free, or there
-- is none and `j` is -1.
pub data IsNext {F S : Type 0} (w : World F S) (id : ℕ) (j : ℕ) : Type 0 where
  found :
      id < j
      → j < (w.positions).length
      → contains (contents w.free_list) j ≡ false
      → ((k : ℕ) → id < k → k < j → contains (contents w.free_list) k ≡ true)
      → IsNext w id j
  ended :
      j ≡ no_id
      → ((k : ℕ) → id < k → k < (w.positions).length → contains (contents w.free_list) k ≡ true)
      → IsNext w id j

module _ {F S : Type 0} (w : World F S) where
  -- A step from a slot goes to the next one, or to -1 behind the last.
  step_in :
      (id : ℕ) → id + 1 < (w.positions).length → (w.positions).length < no_id → step w id ≡ id + 1
  unfolding step
  step_in id h k = ground arith

  step_out : (id : ℕ) → id < no_id → (w.positions).length ≤ id + 1 → step w id ≡ no_id
  unfolding step
  step_out id h k = ground arith

  past_free :
      (id j : ℕ)
      → contains (contents w.free_list) (id + 1) ≡ true
      → IsNext w (id + 1) j
      → IsNext w id j
  past_free id j h (found a b c d) =
      found (omega arith) b c
        (λ k p q. elim (ℕ_discrete (id + 1) k) [ yes e ↦ rw e at h | no n ↦ d k (omega arith) q ])
  past_free id j h (ended e d) =
      ended e
        (λ k p q. elim (ℕ_discrete (id + 1) k) [ yes e ↦ rw e at h | no n ↦ d k (omega arith) q ])

  next_stops :
      (fuel id n : ℕ)
      → step w id ≡ n
      → contains (contents w.free_list) n ≡ false
      → next_on (suc fuel) w id ≡ some n
  unfolding next_on
  next_stops fuel id n e h = rw (e, h) refl

  next_goes_on :
      (fuel id n : ℕ)
      → step w id ≡ n
      → contains (contents w.free_list) n ≡ true
      → next_on (suc fuel) w id ≡ next_on fuel w n
  unfolding next_on
  next_goes_on fuel id n e h = rw (e, h) refl

  -- Enough fuel is given: each call that finds a free slot goes one slot further.
  next_on-IsNext :
      (fuel id : ℕ)
      → (w.positions).length < no_id
      → id < (w.positions).length
      → contains (contents w.free_list) no_id ≡ false
      → (w.positions).length - id ≤ fuel
      → (j : ℕ) × (next_on fuel w id ≡ some j) × IsNext w id j
  next_on-IsNext zero id s h n f = absurd (omega arith)
  next_on-IsNext (suc fuel) id s h n f = elim (dec_lt (id + 1) (w.positions).length) [
    | no out ↦ (
      no_id,
      next_stops fuel id no_id (step_out id (omega arith) (omega arith)) n,
      ended refl (λ k a b. absurd (omega arith)),
    )
    | yes in_range ↦ elim (Bool-cases (contains (contents w.free_list) (id + 1))) [
      | inr live ↦ (
        id + 1,
        next_stops fuel id (id + 1) (step_in id in_range s) live,
        found (omega arith) in_range live (λ k a b. absurd (omega arith)),
      )
      | inl free ↦
          let (j, run, r) = next_on-IsNext fuel (id + 1) s in_range n (omega arith) in
          (
            j,
            next_goes_on fuel id (id + 1) (step_in id in_range s) free ∙ run,
            past_free id j free r,
          )
    ]
  ]

  -- From a slot, `il_world_next` gives the least slot above that is not free, or -1 if there is none.
  pub next-IsNext :
      (id : ℕ)
      → IsWorld w
      → (w.positions).length < no_id
      → id < (w.positions).length
      → (j : ℕ) × (next w id ≡ some j) × IsNext w id j
  unfolding next
  next-IsNext id v s h =
      next_on-IsNext ((w.positions).length + 1) id s h
        (elim (Bool-cases (contains (contents w.free_list) no_id)) [
          | inr e ↦ e
          | inl e ↦
              let (i, f) = contains-index (contents w.free_list) no_id e in
              absurd (omega (arith, (v.free_list).in_range i no_id f))
        ])
        (omega arith)
