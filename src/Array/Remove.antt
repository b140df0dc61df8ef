-- ===== src/Array/Remove.antt =====
-- util/array.h: what `IL_REMOVE` does to the elements.
use intense_logic.Base.{
  take-set, length-set, le→ltb_false, get_elem?-take, take-take, ne→==_false, length-drop,
  length-take, length-append, take-append, drop-append_add, take-append_add, take-append-drop, ℕ,
  zero, suc, ◌+◌, ◌-◌, ◌*◌, ◌≤◌, ◌<◌, ◌≡◌, refl, sym, ap, ap₂, ◌∙◌, some, List, [], ◌∷◌, ◌++◌,
  append-nil, append_assoc, arith, length, get_elem?, set, take, drop, copy_at,
}
use intense_logic.Array.{
  set, some, get_elem?, ◌∷◌, drop, length, copy_at, take, List, Array, contents, Layout, flat,
  unflat, remove,
}
use intense_logic.Array.Valid.{IsValid}

module _ {ℓ} {A : Type ℓ} where
  drop-append : (n : ℕ) (xs ys : List A) → n ≤ length xs → drop n (xs ++ ys) ≡ drop n xs ++ ys
  drop-append zero xs ys h = refl
  drop-append (suc n) [] ys h = absurd (omega arith)
  drop-append (suc n) (x ∷ xs) ys h = drop-append n xs ys (omega arith)

  copy_none : (dst src : List A) (off : ℕ) → copy_at dst off src 0 ≡ dst
  copy_none dst src off = take-append-drop off dst

  -- Copying past a prefix leaves the prefix.
  copy_past :
      (bs dst src : List A) (off o n : ℕ)
      → off ≡ length bs + o
      → copy_at (bs ++ dst) off src n ≡ bs ++ copy_at dst o src n
  copy_past bs dst src off o n e =
      rw (take-append_add off o bs dst e, drop-append_add off o bs dst e)
        (append_assoc bs (take o dst) (take n src ++ drop n (drop o dst)))

module _ {ℓ} {A : Type ℓ} (l : Layout A) where
  unflat-bytes :
      (k : ℕ) (a : A) (bs : List ℕ) → unflat l (suc k) (l.bytes a ++ bs) ≡ a ∷ unflat l k bs
  unfolding unflat
  unflat-bytes k a bs =
      ap₂ (λ t d. l.value t ∷ unflat l k d)
        (take-append_add l.size 0 (l.bytes a) bs (omega (arith, l.length-bytes a))
          ∙ append-nil (l.bytes a))
        (drop-append_add l.size 0 (l.bytes a) bs (omega (arith, l.length-bytes a)))
      ∙ ap (λ b. b ∷ unflat l k bs) (l.value-bytes a)

  pub unflat-flat : (k : ℕ) (xs : List A) → length xs ≡ k → unflat l k (flat l xs) ≡ xs
  unfolding flat unflat
  unflat-flat zero [] e = refl
  unflat-flat zero (x ∷ xs) e = absurd (omega arith)
  unflat-flat (suc k) [] e = absurd (omega arith)
  unflat-flat (suc k) (x ∷ xs) e =
      unflat-bytes k x (flat l xs) ∙ ap (λ r. x ∷ r) (unflat-flat k xs (omega arith))

  -- The element of which the first `n` bytes are those of `y`, the others those of `x`.
  abbrev pub overwritten : ℕ → A → A → A
  overwritten n x y = l.value (take n (l.bytes y) ++ drop n (l.bytes x))

  unflat-cons :
      (k : ℕ) (bs : List ℕ) (m : List A)
      → length bs ≡ l.size
      → length m ≡ k
      → unflat l (suc k) (bs ++ flat l m) ≡ l.value bs ∷ m
  unfolding unflat
  unflat-cons k bs m e f =
      ap₂ (λ t d. l.value t ∷ unflat l k d)
        (take-append_add l.size 0 bs (flat l m) (omega arith) ∙ append-nil bs)
        (drop-append_add l.size 0 bs (flat l m) (omega arith))
      ∙ ap (λ r. l.value bs ∷ r) (unflat-flat k m f)

  -- The first element's bytes overwritten by those of the next.
  move_first :
      (x y : A) (r : List ℕ) (m : List A) (k n : ℕ)
      → n ≤ l.size
      → length m ≡ k
      → unflat l (suc k) (take n (l.bytes y ++ r) ++ drop n (l.bytes x ++ flat l m))
        ≡ overwritten n x y ∷ m
  move_first x y r m k n h e =
      ap (unflat l (suc k)) (
        ap₂ ◌++◌ (take-append n (l.bytes y) r (omega (arith, l.length-bytes y)))
          (drop-append n (l.bytes x) (flat l m) (omega (arith, l.length-bytes x)))
        ∙ sym (append_assoc (take n (l.bytes y)) (drop n (l.bytes x)) (flat l m)))
      ∙ unflat-cons k (take n (l.bytes y) ++ drop n (l.bytes x)) m
          (omega (
            arith,
            length-append (take n (l.bytes y)) (drop n (l.bytes x)),
            length-take n (l.bytes y),
            length-drop n (l.bytes x),
            l.length-bytes x,
            l.length-bytes y,
          ))
          e

  -- Moving at most one element's bytes down changes one element.
  move_bytes :
      (m : List A) (id off from k n : ℕ) (x y : A)
      → off ≡ l.size * id
      → from ≡ off + l.size
      → get_elem? m id ≡ some x
      → get_elem? m (suc id) ≡ some y
      → n ≤ l.size
      → length m ≡ k
      → unflat l k (copy_at (flat l m) off (drop from (flat l m)) n) ≡ set m id (overwritten n x y)
  unfolding flat
  move_bytes [] id off from k n x y e1 e2 ex ey h e = cc
  move_bytes (a ∷ []) id off from k n x y e1 e2 ex ey h e = cc
  move_bytes (a ∷ b ∷ m) id off from zero n x y e1 e2 ex ey h e = absurd (omega arith)
  move_bytes (a ∷ b ∷ m) zero off from (suc k) n x y e1 e2 ex ey h e =
      ap (unflat l (suc k)) (
        ap₂ (λ o s. copy_at (l.bytes a ++ (l.bytes b ++ flat l m)) o s n) {y = 0} (omega arith)
          (drop-append_add from 0 (l.bytes a) (l.bytes b ++ flat l m)
            (omega (arith, l.length-bytes a))))
      ∙ move_first a b (flat l m) (b ∷ m) k n h (omega arith)
      ∙ ap₂ (λ x' y'. overwritten n x' y' ∷ b ∷ m) (cc) (cc)
  move_bytes (a ∷ b ∷ m) (suc id) off from (suc k) n x y e1 e2 ex ey h e =
      let o = l.size * id in
      let shift : off ≡ length (l.bytes a) + o = grind (arith, l.length-bytes) in
      ap (unflat l (suc k)) (
        ap (λ src. copy_at (l.bytes a ++ flat l (b ∷ m)) off src n)
          (drop-append_add from (o + l.size) (l.bytes a) (flat l (b ∷ m)) (omega (arith, shift)))
        ∙ copy_past (l.bytes a) (flat l (b ∷ m)) (drop (o + l.size) (flat l (b ∷ m))) off o n shift)
      ∙ unflat-bytes k a (copy_at (flat l (b ∷ m)) o (drop (o + l.size) (flat l (b ∷ m))) n)
      ∙ ap (λ r. a ∷ r)
          (move_bytes (b ∷ m) id o (o + l.size) k n x y refl refl ex ey h (omega arith))

  -- The storage after `IL_REMOVE`, for an index in range.
  moved : Array A → ℕ → List A
  moved a id = unflat l a.capacity (
      copy_at (flat l a.mem) (l.size * id) (drop (l.size * (id + 1)) (flat l a.mem))
        (a.length - 1 - id))

  remove_runs :
      (a : Array A) (id : ℕ)
      → id < a.length
      → remove l a id ≡ some (record a { mem = moved a id; length = a.length - 1 })
  unfolding remove moved
  remove_runs a id h =
      rw (ne→==_false a.length 0 (omega arith), le→ltb_false (a.length - 1) id (omega arith))

  -- `IL_REMOVE` of the last element removes it, and leaves the others.
  pub remove_last :
      (a : Array A) (id : ℕ)
      → IsValid a
      → a.length ≡ id + 1
      → (b : Array A) × (remove l a id ≡ some b) × IsValid b × (contents b ≡ take id (contents a))
  unfolding moved
  remove_last a id v e =
      let same : moved a id ≡ a.mem =
        ap
          (λ n.
            unflat l a.capacity
              (copy_at (flat l a.mem) (l.size * id) (drop (l.size * (id + 1)) (flat l a.mem)) n))
          {y = 0} (omega arith)
        ∙ ap (unflat l a.capacity)
            (copy_none (flat l a.mem) (drop (l.size * (id + 1)) (flat l a.mem)) (l.size * id))
        ∙ unflat-flat a.capacity a.mem v.storage in
      (
        record a { mem = a.mem; length = id },
        remove_runs a id (omega arith)
            ∙ ap (λ m. some (record a { mem = m; length = a.length - 1 })) same
            ∙ ap (λ n. some (record a { mem = a.mem; length = n })) {y = id} (omega arith),
        record { storage = v.storage; fits = omega (arith, v.fits) },
        sym (take-take id a.length a.mem (omega arith)),
      )

  -- `IL_REMOVE` of any other element, when fewer elements follow it than an element has bytes: as
  -- many of its bytes as elements follow it are overwritten, and it is the last element that goes.
  pub remove_middle :
      (a : Array A) (id : ℕ) (x y : A)
      → IsValid a
      → id + 1 < a.length
      → a.length ≤ l.size + id + 1
      → get_elem? (contents a) id ≡ some x
      → get_elem? (contents a) (suc id) ≡ some y
      → (b : Array A) × (remove l a id ≡ some b)
        × IsValid b
        × (contents b
            ≡ take (a.length - 1) (set (contents a) id (overwritten (a.length - 1 - id) x y)))
  unfolding moved
  remove_middle a id x y v h k ex ey =
      let n : ℕ = a.length - 1 - id in
      let same : moved a id ≡ set a.mem id (overwritten n x y) =
        move_bytes a.mem id (l.size * id) (l.size * (id + 1)) a.capacity n x y refl (grind arith)
          (sym (get_elem?-take a.length id a.mem (omega arith)) ∙ ex)
          (sym (get_elem?-take a.length (suc id) a.mem (omega arith)) ∙ ey) (omega arith)
          v.storage in
      (
        record a { mem = set a.mem id (overwritten n x y); length = a.length - 1 },
        remove_runs a id (omega arith)
            ∙ ap (λ m. some (record a { mem = m; length = a.length - 1 })) same,
        record {
          storage = length-set a.mem id (overwritten n x y) ∙ v.storage;
          fits = omega (arith, v.fits);
        },
        sym (take-take (a.length - 1) a.length (set a.mem id (overwritten n x y)) (omega arith))
            ∙ ap (take (a.length - 1)) (take-set a.length id a.mem (overwritten n x y)),
      )
