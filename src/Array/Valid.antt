-- ===== src/Array/Valid.antt =====
-- util/array.h: the representation invariant of a growable array, and appending.
use intense_logic.Base.{
  ℕ, suc, ◌+◌, ◌*◌, ◌≤◌, ◌<◌, ◌≡◌, refl, ap, ◌∙◌, [], ◌∷◌, ◌++◌, arith, leb, ltb, if◌then◌else◌,
  length, take, set, replicate, length-set, length-replicate, length-copy_at, take-set-suc,
  take-append, take-take, Bool-cases, inl, inr, leb→le, length-take,
}
use intense_logic.Array.{Array, empty, contents, resize, autoresize, make_room, append}

-- The storage holds `capacity` elements, `length` of which are in use.
pub record IsValid {ℓ} {A : Type ℓ} (a : Array A) : Type ℓ where
  pub storage : length a.mem ≡ a.capacity
  pub fits : a.length ≤ a.capacity

module _ {ℓ} {A : Type ℓ} where
  pub empty-IsValid : IsValid (empty {A = A})
  empty-IsValid = record { storage = refl; fits = omega arith }

  pub length-contents : (a : Array A) → IsValid a → length (contents a) ≡ a.length
  length-contents a v = omega (arith, length-take a.length a.mem, v.storage, v.fits)

module _ {ℓ} {A : Type ℓ} (z : A) where
  min_size :
      (a : Array A) (n : ℕ) → a.length ≤ n → (if ltb n a.length then n else a.length) ≡ a.length
  min_size a n h = ground arith

  -- Growing the storage keeps the elements in use.
  pub resize-IsValid : (a : Array A) (n : ℕ) → IsValid a → a.length ≤ n → IsValid (resize z a n)
  unfolding resize
  resize-IsValid a n v h = rw (min_size a n h) (record {
    storage =
        length-copy_at (replicate n z) 0 a.mem a.length (omega (arith, length-replicate n z))
          (omega (arith, v.storage, v.fits))
        ∙ length-replicate n z;
    fits = h;
  })

  pub contents-resize :
      (a : Array A) (n : ℕ) → IsValid a → a.length ≤ n → contents (resize z a n) ≡ contents a
  unfolding resize
  contents-resize a n v h = rw (min_size a n h) (
      take-append a.length (take a.length a.mem) _ (omega (arith, length-contents a v))
      ∙ take-take a.length a.length a.mem (omega arith))

  pub autoresize-IsValid : (a : Array A) → IsValid a → IsValid (autoresize z a)
  unfolding autoresize
  autoresize-IsValid a v = resize-IsValid a _ v (ground (arith, v.fits))

  pub contents-autoresize : (a : Array A) → IsValid a → contents (autoresize z a) ≡ contents a
  unfolding autoresize
  contents-autoresize a v = contents-resize a _ v (ground (arith, v.fits))

  -- It at least doubles the capacity, and makes room for one element.
  pub capacity-autoresize :
      (a : Array A)
      → (a.capacity * 2 ≤ (autoresize z a).capacity)
        × (64 ≤ (autoresize z a).capacity)
        × ((autoresize z a).length ≡ a.length)
  unfolding autoresize resize
  capacity-autoresize a = ground arith

  -- With room for one more element, as `IL_APPEND` and `IL_INSERT` make it.
  pub make_room-IsValid :
      (a : Array A)
      → IsValid a
      → IsValid (make_room z a)
        × (contents (make_room z a) ≡ contents a)
        × ((make_room z a).length ≡ a.length)
        × (a.length < (make_room z a).capacity)
  make_room-IsValid a v = elim (Bool-cases (leb a.capacity a.length)) [
    | inl full ↦ rw full (
      autoresize-IsValid a v,
      contents-autoresize a v,
      (capacity-autoresize a).2,
      omega (arith, v.fits, leb→le _ _ full, capacity-autoresize a),
    )
    | inr room ↦ rw room (v, refl, refl, ground arith)
  ]

  -- `IL_APPEND` keeps the array valid, and adds one element at the end of its contents.
  pub append-IsValid : (a : Array A) (x : A) → IsValid a → IsValid (append z a x)
  unfolding append
  append-IsValid a x v =
      let (w, _, e, room) = make_room-IsValid a v in
      record {
        storage = length-set (make_room z a).mem (make_room z a).length x ∙ w.storage;
        fits = omega (arith, e, room);
      }

  pub contents-append :
      (a : Array A) (x : A) → IsValid a → contents (append z a x) ≡ contents a ++ (x ∷ [])
  unfolding append
  contents-append a x v =
      let (w, c, e, room) = make_room-IsValid a v in
      ap (λ n. take n (set (make_room z a).mem (make_room z a).length x))
        {y = suc (make_room z a).length} (omega arith)
      ∙ take-set-suc (make_room z a).length (make_room z a).mem x
          (omega (arith, w.storage, e, room))
      ∙ ap (λ l. l ++ (x ∷ [])) c

  pub append_length : (a : Array A) (x : A) → IsValid a → (append z a x).length ≡ a.length + 1
  unfolding append
  append_length a x v = let (_, _, e, _) = make_room-IsValid a v in omega (arith, e)
