-- ===== src/Asset/Obj/Grow.antt =====
-- asset/obj.c: the growing tables.
use intense_logic.Base.{
  ℕ, suc, ◌+◌, ◌*◌, ◌≤◌, ◌<◌, ◌≡◌, refl, ap, ◌∙◌, none, some, List, [], ◌∷◌, ◌++◌, arith, length,
  set, take, replicate, copy_at, dec_lt,
}
use intense_logic.Base.{
  length-copy_at, length-replicate, length-set, take-set-suc, take-append, take-take, length-take,
}
use intense_logic.Asset.Obj.{Table, Obj, resize, push, push_normal}

-- The storage is that of the capacity.
pub record IsTable {A : Type 0} (t : Table A) : Type 0 where
  pub storage : length t.mem ≡ t.cap
  pub fits : t.num ≤ t.cap
  pub some_room : 0 < t.cap

module _ {A : Type 0} (z : A) where
  -- Growing keeps the elements in use.
  resize_runs :
      (mem : List A) (n m : ℕ)
      → n ≤ m
      → n ≤ length mem
      → resize z mem n m ≡ some (copy_at (replicate m z) 0 mem n)
  unfolding resize
  resize_runs mem n m h k = ground arith

  write :
      (t : Table A) (mem : List A) (cap : ℕ) (x : A)
      → take t.num mem ≡ take t.num t.mem
      → length mem ≡ cap
      → t.num < cap
      → IsTable (record { mem = set mem t.num x; num = t.num + 1; cap = cap })
        × (take (t.num + 1) (set mem t.num x) ≡ take t.num t.mem ++ (x ∷ []))
  write t mem cap x same long room = (
    record { storage = length-set mem t.num x ∙ long; fits = omega arith; some_room = omega arith },
    ap (λ k. take k (set mem t.num x)) {x = t.num + 1} {y = suc t.num} (omega arith)
        ∙ take-set-suc t.num mem x (omega arith)
        ∙ ap (λ l. l ++ (x ∷ [])) same,
  )

  -- A vector is added at the end of a table whose storage grows with its capacity.
  pub push-IsTable :
      (t : Table A) (x : A)
      → IsTable t
      → (t' : Table A) × (push z (t.cap * 2) t x ≡ some t')
        × IsTable t'
        × (take t'.num t'.mem ≡ take t.num t.mem ++ (x ∷ []))
  unfolding push
  push-IsTable t x v = elim (dec_lt t.num t.cap) [
    | yes room ↦
        let (w, e) = write t t.mem t.cap x refl v.storage room in
        (
          record { mem = set t.mem t.num x; num = t.num + 1; cap = t.cap },
          ground (arith, v.storage),
          w,
          e,
        )
    | no full ↦
        let grown = copy_at (replicate (t.cap * 2) z) 0 t.mem t.num in
        let long : length grown ≡ t.cap * 2 =
          length-copy_at (replicate (t.cap * 2) z) 0 t.mem t.num
            (omega (arith, length-replicate (t.cap * 2) z, v.fits))
            (omega (arith, v.storage, v.fits))
          ∙ length-replicate (t.cap * 2) z in
        let same : take t.num grown ≡ take t.num t.mem =
          take-append t.num (take t.num t.mem) _
            (omega (arith, length-take t.num t.mem, v.storage, v.fits))
          ∙ take-take t.num t.num t.mem (omega arith) in
        let (w, e) = write t grown (t.cap * 2) x same long (omega (arith, v.some_room, v.fits)) in
        (
          record { mem = set grown t.num x; num = t.num + 1; cap = t.cap * 2 },
          rw
              (resize_runs t.mem t.num (t.cap * 2) (omega (arith, v.fits))
                (omega (arith, v.storage, v.fits)))
              (ground (arith, long, v.some_room, v.fits)),
          w,
          e,
        )
  ]

-- Storage that grows to no more than the elements in use has no place for the next one.
push_short :
    {A : Type 0} (z : A) (newsize : ℕ) (t : Table A) (x : A)
    → t.cap ≤ t.num
    → newsize ≤ t.num
    → push z newsize t x ≡ none
unfolding push resize
push_short z newsize t x full short = elim (dec_lt newsize t.num) [
  | yes less ↦ ground arith
  | no same ↦ elim (dec_lt (length t.mem) t.num) [
    | yes missing ↦ ground arith
    | no held ↦
        let long : length (copy_at (replicate newsize z) 0 t.mem t.num) ≡ newsize =
          length-copy_at (replicate newsize z) 0 t.mem t.num
            (omega (arith, length-replicate newsize z)) (omega arith)
          ∙ length-replicate newsize z in
        ground (arith, long)
  ]
]

-- A file with more normals than twice the capacity of its texture coordinates writes past the
-- storage of the normals, when that is to grow.
pub push_normal_fails :
    {V M : Type 0} (z x : V) (o : Obj V M)
    → o.normal.cap ≤ o.normal.num
    → o.texcoord.cap * 2 ≤ o.normal.num
    → push_normal z o x ≡ none
unfolding push_normal
push_normal_fails z x o full short =
    rw (push_short z (o.texcoord.cap * 2) o.normal x full short) refl
