-- ===== src/Common/Object.antt =====
-- common/base.c: objects with a reference count, weak references and a chain of types. The pointers
-- that are not NULL, as the guards of the functions ask; the typeclasses are in a hash table.
pub mod Weak
use intense_logic.Base.{
  ℕ, zero, suc, ◌+◌, ◌-◌, ◌*◌, ◌/◌, ◌%◌, ◌^◌, ◌≤◌, ◌<◌, min, ◌≡◌, refl, sym, ap, ap₂, ◌∙◌, ◌≢◌, ◌↔◌,
  ◌⊎◌, inl, inr, Bool, true, false, not, ◌&&◌, ◌||◌, Option, none, some, List, [], ◌∷◌, ◌++◌, map,
  append-nil, append_assoc, arith, ltb, leb, ◌==◌, if◌then◌else◌, length, get_elem?, get_or, set,
  take, drop, replicate, copy_at, Bool-cases, dec_lt, ℕ_discrete,
}
use intense_logic.Array.{Array, contents, append, empty, find}

-- What a type says of itself: `il_type` without its parents. A function is a number.
pub record TypeInfo : Type 0 where
  pub constructor_fn : Option ℕ
  pub destructor_fn : Option ℕ
  pub copy_fn : Option ℕ
  pub name : List ℕ
  pub size : ℕ

-- `il_base`: `type` is the chain of the type and its parents. A weak reference is the address of a
-- pointer. `int refs` counts down to 0 at least, where the object is freed.
pub record Object : Type 0 where
  pub refs : ℕ
  pub weak_refs : Array ℕ
  pub type : List TypeInfo

-- The pointers that are weak references, by their addresses; `none` is NULL.
abbrev pub Cells : Type 0
Cells = ℕ → Option ℕ

abbrev pub write : Cells → ℕ → Option ℕ → Cells
write cells p v q = if p == q then v else cells q

-- `il_ref`
unfoldable pub ref : Object → Object
ref o = record o { refs = o.refs + 1 }

-- `*base->weak_refs.data[i] = NULL` for all of them
unfoldable pub clear_weak : List ℕ → Cells → Cells
clear_weak [] cells = cells
clear_weak (p ∷ ps) cells = clear_weak ps (write cells p none)

-- The functions of a chain of types that are called, from the type to its last parent.
unfoldable pub calls : (TypeInfo → Option ℕ) → List TypeInfo → List ℕ
calls f [] = []
calls f (t ∷ ts) = elim (f t) [ none ↦ calls f ts | some g ↦ g ∷ calls f ts ]

-- What `il_unref` leaves: the object, or the destructors that were called before it was freed.
pub data Unref : Type 0 where
  kept : Object → Unref
  freed : (destructors : List ℕ) → Unref

-- `il_unref`
unfoldable pub unref : Object → Cells → Unref × Cells
unref o cells =
    if ltb (o.refs - 1) 1
    then (freed (calls (λ t. t.destructor_fn) o.type), clear_weak (contents o.weak_refs) cells)
    else (kept (record o { refs = o.refs - 1 }), cells)

-- `il_weakref` of the object at `self`
unfoldable pub weakref : ℕ → Object → Cells → ℕ → Object × Cells
weakref self o cells ptr =
    (record o { weak_refs = append 0 o.weak_refs ptr }, write cells ptr (some self))

-- The loop of `il_weakunref`
unfoldable pub drop_weak : Array ℕ → ℕ → Array ℕ
drop_weak a ptr =
    let i = find (λ p. p == ptr) a in
    if ltb i a.length
    then record a { mem = set a.mem i (get_or a.mem (a.length - 1) 0); length = a.length - 1 }
    else a

-- `il_weakunref`
unfoldable pub weakunref : Object → Cells → ℕ → Object × Cells
weakunref o cells ptr = (record o { weak_refs = drop_weak o.weak_refs ptr }, write cells ptr none)

-- `il_sizeof`; `base_size` is `sizeof(il_base)`.
unfoldable pub type_size : ℕ → List TypeInfo → ℕ
type_size base_size [] = 0
type_size base_size (t ∷ []) = if ltb t.size base_size then base_size else t.size
type_size base_size (t ∷ p ∷ ts) =
    if ltb t.size base_size then base_size else if ltb t.size p.size then p.size else t.size

-- `il_init`, with the constructors that it calls: the type's own comes first.
unfoldable pub init : List TypeInfo → Object × List ℕ
init type =
    (record { refs = 1; weak_refs = empty; type = type }, calls (λ t. t.constructor_fn) type)

-- `il_copy`, with the functions that it calls
unfoldable pub copy : Object → Object × List ℕ
copy o = (record { refs = 1; weak_refs = empty; type = o.type }, calls (λ t. t.copy_fn) o.type)
