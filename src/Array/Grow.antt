-- ===== src/Array/Grow.antt =====
-- util/array.h: the loops of `IL_SET` and `IL_INDEXORZERO`.
use intense_logic.Base.{
  sym, get_elem?-set_ne, get_elem?-set_self, get_elem?-take, le→ltb_false, length-set, lt→ltb, ◌≢◌,
  dec_lt, lt→leb_false, ℕ, zero, suc, ◌+◌, ◌*◌, ◌≤◌, ◌<◌, ◌≡◌, refl, ap, ◌∙◌, Option, none, some,
  arith, ltb, if◌then◌else◌, set, get_elem?, le→leb,
}
use intense_logic.Array.{Array, contents, autoresize, grow_to, set_at, zero_grow, resize}
use intense_logic.Array.Valid.{
  IsValid, autoresize-IsValid, contents-autoresize, capacity-autoresize,
}

module _ {ℓ} {A : Type ℓ} (z : A) where
  -- `IL_INDEXORZERO` never ends for an index beyond the capacity: it asks for a capacity of at
  -- most the index, whatever the number of rounds.
  pub zero_grow_diverges :
      (fuel id : ℕ) (a : Array A) → a.capacity ≤ id → zero_grow z fuel id a ≡ none
  unfolding zero_grow resize
  zero_grow_diverges zero id a h = refl
  zero_grow_diverges (suc fuel) id a h =
      let max = if ltb (a.capacity * 2) id then id else a.capacity in
      rw (le→leb a.capacity id h) (zero_grow_diverges fuel id (resize z a max) (ground arith))

  -- What `grow_to` has made: an array with the same elements, in which the index is in range.
  record Grown (a : Array A) (id : ℕ) (r : Option (Array A)) : Type ℓ where
    grown : Array A
    result : r ≡ some grown
    valid : IsValid grown
    same : contents grown ≡ contents a
    same_length : grown.length ≡ a.length
    room : id < grown.capacity

  still :
      (fuel id : ℕ) (a : Array A)
      → IsValid a
      → id < a.capacity
      → Grown a id (grow_to z (suc fuel) id a)
  unfolding grow_to
  still fuel id a v room =
      rw (lt→leb_false a.capacity id room) (record {
        grown = a;
        result = refl;
        valid = v;
        same = refl;
        same_length = refl;
        room = room;
      })

  again :
      (fuel id : ℕ) (a : Array A)
      → IsValid a
      → a.capacity ≤ id
      → Grown (autoresize z a) id (grow_to z fuel id (autoresize z a))
      → Grown a id (grow_to z (suc fuel) id a)
  unfolding grow_to
  again fuel id a v full g = rw (le→leb a.capacity id full) (record {
    grown = g.grown;
    result = g.result;
    valid = g.valid;
    same = g.same ∙ contents-autoresize z a v;
    same_length = g.same_length ∙ (capacity-autoresize z a).2;
    room = g.room;
  })

  -- Each round adds at least 32 elements, so a round for every 32 missing is enough.
  grow_to-Grown :
      (fuel id : ℕ) (a : Array A)
      → IsValid a
      → id < a.capacity + 32 * fuel
      → Grown a id (grow_to z (suc fuel) id a)
  grow_to-Grown zero id a v h = still zero id a v (omega arith)
  grow_to-Grown (suc fuel) id a v h = elim (dec_lt id a.capacity) [
    | yes room ↦ still (suc fuel) id a v room
    | no full ↦ again (suc fuel) id a v (omega arith) (
        grow_to-Grown fuel id (autoresize z a) (autoresize-IsValid z a v)
          (omega (arith, capacity-autoresize z a)))
  ]

  -- `b` is `a` with `x` at `id`.
  pub record IsSetAt (a : Array A) (id : ℕ) (x : A) (b : Array A) : Type ℓ where
    pub valid : IsValid b
    pub stored : get_elem? (contents b) id ≡ some x
    pub others :
        (i : ℕ) → i < a.length → id ≢ i → get_elem? (contents b) i ≡ get_elem? (contents a) i
    pub long : b.length ≡ (if ltb id a.length then a.length else id + 1)

  -- Writing in range, with a length that takes in the index and the old elements.
  write :
      (a b : Array A) (id n : ℕ) (x : A)
      → IsValid b
      → contents b ≡ contents a
      → b.length ≡ a.length
      → n ≤ b.capacity
      → id < n
      → a.length ≤ n
      → n ≡ (if ltb id a.length then a.length else id + 1)
      → IsSetAt a id x (record b { mem = set b.mem id x; length = n })
  write a b id n x v same e fits r old long = record {
    valid = record { storage = length-set b.mem id x ∙ v.storage; fits = fits };
    stored =
        get_elem?-take n id (set b.mem id x) r
        ∙ get_elem?-set_self b.mem id x (omega (arith, v.storage));
    others = λ i hi ne.
        get_elem?-take n i (set b.mem id x) (omega arith)
        ∙ get_elem?-set_ne b.mem id i x ne
        ∙ sym (get_elem?-take b.length i b.mem (omega arith))
        ∙ ap (λ l. get_elem? l i) same;
    long = long;
  }

  -- `IL_SET` ends, with fuel for every 32 elements that are missing. It keeps the array valid, the
  -- element is found at its index, what stood at the other indices in use is unchanged, and the
  -- length grows to the index.
  pub set_at-IsSetAt :
      (fuel : ℕ) (a : Array A) (id : ℕ) (x : A)
      → IsValid a
      → id < a.capacity + 32 * fuel
      → (b : Array A) × (set_at z (suc fuel) a id x ≡ some b) × IsSetAt a id x b
  unfolding set_at
  set_at-IsSetAt fuel a id x v h = elim (dec_lt id a.length) [
    | yes p ↦ (
      record a { mem = set a.mem id x },
      rw (lt→ltb id a.length p),
      write a a id a.length x v refl refl v.fits p (omega arith) (rw (lt→ltb id a.length p)),
    )
    | no p ↦
        let g = grow_to-Grown fuel id a v h in
        (
          record (g.grown) { mem = set (g.grown).mem id x; length = id + 1 },
          rw (le→ltb_false id a.length (omega arith), g.result),
          write a g.grown id (id + 1) x g.valid g.same g.same_length (omega (arith, g.room))
              (omega arith) (omega arith) (rw (le→ltb_false id a.length (omega arith))),
        )
  ]
