-- ===== src/Array/Insert.antt =====
-- util/array.h: `IL_INSERT` puts an element before the one at the index.
use intense_logic.Base.{
  ℕ, zero, suc, ◌+◌, ◌-◌, ◌≤◌, ◌<◌, ◌≡◌, refl, ap, ◌∙◌, some, List, [], ◌∷◌, ◌++◌, arith, ltb,
  if◌then◌else◌, length, append_assoc, insert_at_end, take, drop, set, copy_at, length-set,
  length-copy_at, take-append, take-take, length-drop, length-take,
}
use native.Mathlib.Nat.{sub-zero}
use native.Mathlib.Numerals.{add-one}
use intense_logic.Array.{Array, contents, make_room, shift_in, insert, append}
use intense_logic.Array.Valid.{
  IsValid, make_room-IsValid, append-IsValid, append_length, contents-append, length-contents,
}

-- Moving the tail of a list up by one, and writing into the gap.
copy_up {ℓ} :
    {A : Type ℓ} (m : List A) (id n cnt : ℕ) (x : A)
    → id ≤ n
    → n < length m
    → cnt ≡ n - id
    → take (suc n) (set (copy_at m (suc id) (drop id m) cnt) id x)
      ≡ take id (take n m) ++ (x ∷ drop id (take n m))
copy_up [] id n cnt x h k e = absurd (omega arith)
copy_up (y ∷ m) zero n cnt x h k e =
    ap (λ r. x ∷ r)
      (rw (e, sub-zero)
        (take-append n (take n (y ∷ m)) _ (omega (arith, length-take n (y ∷ m)))
          ∙ take-take n n (y ∷ m) (omega arith)))
copy_up (y ∷ m) (suc id) zero cnt x h k e = absurd (omega arith)
copy_up (y ∷ m) (suc id) (suc n) cnt x h k e =
    ap (λ r. y ∷ r) (copy_up m id n cnt x (omega arith) (omega arith) (omega arith))

module _ {ℓ} {A : Type ℓ} (z : A) where
  -- The array that `shift_in` leaves.
  inserted : Array A → ℕ → A → Array A
  inserted b id x = record b {
    mem = set (copy_at b.mem (id + 1) (drop id b.mem) (b.length - id)) id x;
    length = b.length + 1;
  }

  shift_in_lem :
      (b : Array A) (id : ℕ) (x : A)
      → IsValid b
      → b.length < b.capacity
      → id ≤ b.length
      → (shift_in z b id x ≡ some (inserted b id x))
        × IsValid (inserted b id x)
        × (contents (inserted b id x) ≡ take id (contents b) ++ (x ∷ drop id (contents b)))
  unfolding shift_in inserted
  shift_in_lem b id x v r h = (
    ground arith,
    record {
      storage =
          length-set (copy_at b.mem (id + 1) (drop id b.mem) (b.length - id)) id x
          ∙ length-copy_at b.mem (id + 1) (drop id b.mem) (b.length - id) (omega (arith, v.storage))
              (omega (arith, v.storage, length-drop id b.mem))
          ∙ v.storage;
      fits = omega arith;
    },
    simp add-one (copy_up b.mem id b.length (b.length - id) x h (omega (arith, v.storage)) refl),
  )

  -- An index within the list: the element goes before the one that stood there.
  pub contents-insert :
      (a : Array A) (id : ℕ) (x : A)
      → IsValid a
      → id ≤ a.length
      → (b : Array A) × (insert z a id x ≡ some b)
        × IsValid b
        × (contents b ≡ take id (contents a) ++ (x ∷ drop id (contents a)))
  unfolding insert
  contents-insert a id x v h =
      let (w, c, e, room) = make_room-IsValid z a v in
      let same : (if ltb a.length id then append z a x else a) ≡ a = ground arith in
      let (r, wb, cb) =
        shift_in_lem (make_room z a) id x w (omega (arith, e, room)) (omega (arith, e)) in
      (inserted (make_room z a) id x, rw same r, wb, rw c at cb)

  -- An index past the end by one: the element is appended twice.
  pub insert_past_end :
      (a : Array A) (x : A)
      → IsValid a
      → (b : Array A) × (insert z a (a.length + 1) x ≡ some b)
        × (contents b ≡ contents a ++ (x ∷ x ∷ []))
  unfolding insert
  insert_past_end a x v =
      let more : (if ltb a.length (a.length + 1) then append z a x else a) ≡ append z a x =
        ground arith in
      let l : (append z a x).length ≡ a.length + 1 = append_length z a x v in
      let (w, c, e, room) = make_room-IsValid z (append z a x) (append-IsValid z a x v) in
      let (r, wb, cb) =
        shift_in_lem (make_room z (append z a x)) (a.length + 1) x w (omega (arith, e, room))
          (omega (arith, e, l)) in
      (
        inserted (make_room z (append z a x)) (a.length + 1) x,
        rw more r,
        cb
            ∙ insert_at_end (a.length + 1) (contents (make_room z (append z a x))) x
                (length-contents (make_room z (append z a x)) w ∙ e ∙ l)
            ∙ ap (λ t. t ++ (x ∷ [])) (c ∙ contents-append z a x v)
            ∙ append_assoc (contents a) (x ∷ []) (x ∷ []),
      )
