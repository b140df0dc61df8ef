-- ===== src/Array.antt =====
-- src/util/array.h: growable arrays. A macro that updates its list argument returns the new list;
-- `none` is a fault (an access outside the storage, or a size that wraps below zero).
pub mod Valid
pub mod Find
pub mod Insert
pub mod Remove
pub mod FastRemove
pub mod Grow
mod Tests
use mathlib.Core.Option
use intense_logic.Base
use intense_logic.Base.{
  ◌≡◌, ◌==◌, ◌∷◌, ℕ, zero, suc, ◌+◌, ◌-◌, ◌*◌, ◌≤◌, ◌<◌, min, Bool, true, false, Option, none, some,
  List, [], ◌++◌, ltb, leb, if◌then◌else◌, length, take, drop, set, get_elem?, replicate, copy_at,
}

-- `IL_ARRAY(T, name)`: `mem` is what `data` points to (empty for NULL), of `capacity` elements.
pub record Array {ℓ} (A : Type ℓ) : Type ℓ where
  pub mem : List A
  pub length : ℕ
  pub capacity : ℕ

module _ {ℓ} {A : Type ℓ} where
  -- `{0, 0, 0}`, which `calloc` gives too
  abbrev pub empty : Array A
  empty = record { mem = []; length = 0; capacity = 0 }

  -- What a client sees: the first `length` elements.
  abbrev pub contents : Array A → List A
  contents a = take a.length a.mem

  -- `IL_INDEX`: `none` for the NULL that an index out of bounds gives.
  unfoldable pub index : Array A → ℕ → Option A
  index a id = if ltb id a.length then get_elem? a.mem id else none

-- `z` is the element of zero bytes that `calloc` fills new storage with.
module _ {ℓ} {A : Type ℓ} (z : A) where
  -- `IL_RESIZE`
  unfoldable pub resize : Array A → ℕ → Array A
  resize a nmemb =
      let min_size = if ltb nmemb a.length then nmemb else a.length in
      record a { mem = copy_at (replicate nmemb z) 0 a.mem min_size; capacity = nmemb }

  -- `IL_AUTORESIZE`
  unfoldable pub autoresize : Array A → Array A
  autoresize a = let newcap = a.capacity * 2 in resize a (if ltb newcap 64 then 64 else newcap)

  -- `if (length >= capacity) IL_AUTORESIZE`, of `IL_APPEND` and `IL_INSERT`.
  abbrev pub make_room : Array A → Array A
  make_room a = if leb a.capacity a.length then autoresize a else a

  -- `IL_APPEND`
  unfoldable pub append : Array A → A → Array A
  append a x =
      let a' = make_room a in record a' { mem = set a'.mem a'.length x; length = a'.length + 1 }

  -- The loop of `IL_SET`, on fuel: `none` when the fuel runs out.
  unfoldable pub grow_to : ℕ → ℕ → Array A → Option (Array A)
  grow_to zero id a = none
  grow_to (suc fuel) id a =
      let rest = grow_to fuel id (autoresize a) in if leb a.capacity id then rest else some a

  abbrev stored : ℕ → A → Option (Array A) → Option (Array A)
  stored id x none = none
  stored id x (some a) = some (record a { mem = set a.mem id x; length = id + 1 })

  -- `IL_SET`
  unfoldable pub set_at : ℕ → Array A → ℕ → A → Option (Array A)
  set_at fuel a id x =
      if ltb id a.length
      then some (record a { mem = set a.mem id x })
      else stored id x (grow_to fuel id a)

  or_set : ℕ → Array A → ℕ → A → Option A → Option (A × Array A)
  or_set fuel a id x (some y) = some (y, a)
  or_set fuel a id x none = Option.map (λ a'. (x, a')) (set_at fuel a id x)

  -- `IL_INDEXORSET`: what `out` points to, beside the list.
  unfoldable pub index_or_set : ℕ → Array A → ℕ → A → Option (A × Array A)
  unfolding or_set
  index_or_set fuel a id x = or_set fuel a id x (index a id)

  -- The loop of `IL_INDEXORZERO`, on fuel.
  unfoldable pub zero_grow : ℕ → ℕ → Array A → Option (Array A)
  zero_grow zero id a = none
  zero_grow (suc fuel) id a =
      let max = if ltb (a.capacity * 2) id then id else a.capacity in
      let rest = zero_grow fuel id (resize a max) in if leb a.capacity id then rest else some a

  -- The `memmove` of `IL_INSERT` and what follows it. Its count `length - id` wraps below zero if
  -- the index is past the end.
  unfoldable pub shift_in : Array A → ℕ → A → Option (Array A)
  shift_in b id x =
      if ltb b.length id
      then none
      else some (record b {
        mem = set (copy_at b.mem (id + 1) (drop id b.mem) (b.length - id)) id x;
        length = b.length + 1;
      })

  -- `IL_INSERT`: for an index past the end it appends first, and inserts as well.
  unfoldable pub insert : Array A → ℕ → A → Option (Array A)
  insert a id x = shift_in (make_room (if ltb a.length id then append a x else a)) id x

module _ {ℓ} {A : Type ℓ} where
  -- `IL_FASTREMOVE`: `length - 1` wraps for the empty list.
  unfoldable pub fastremove : Array A → ℕ → Option (Array A)
  fastremove a id =
      if a.length == 0
      then none
      else if ltb id (a.length - 1)
      then Option.map (λ x. record a { mem = set a.mem id x; length = a.length - 1 })
          (get_elem? a.mem (a.length - 1))
      else some (record a { length = a.length - 1 })

  -- `IL_FIND`: the first index at which `eq` holds, `length` if there is none.
  unfoldable pub find_from : (A → Bool) → List A → ℕ → ℕ
  find_from eq [] i = i
  find_from eq (x ∷ xs) i = if eq x then i else find_from eq xs (i + 1)

  unfoldable pub find : (A → Bool) → Array A → ℕ
  unfolding find_from
  find eq a = find_from eq (contents a) 0

-- How the compiler lays an element out: `sizeof`, and the bytes of a value.
pub record Layout {ℓ} (A : Type ℓ) : Type ℓ where
  pub size : ℕ
  pub bytes : A → List ℕ
  pub value : List ℕ → A
  pub length-bytes : (a : A) → Base.length (bytes a) ≡ size
  pub value-bytes : (a : A) → value (bytes a) ≡ a

module _ {ℓ} {A : Type ℓ} (l : Layout A) where
  -- The bytes of consecutive elements, and back.
  unfoldable pub flat : List A → List ℕ
  flat [] = []
  flat (x ∷ xs) = l.bytes x ++ flat xs

  unfoldable pub unflat : ℕ → List ℕ → List A
  unflat zero bs = []
  unflat (suc n) bs = l.value (take l.size bs) ∷ unflat n (drop l.size bs)

  -- `IL_REMOVE`: `memmove` is given the number of elements as its number of bytes.
  unfoldable pub remove : Array A → ℕ → Option (Array A)
  remove a id =
      if a.length == 0
      then none
      else if ltb (a.length - 1) id
      then none
      else let old = flat a.mem in
        let src = drop (l.size * (id + 1)) old in
        some (record a {
          mem = unflat a.capacity (copy_at old (l.size * id) src (a.length - 1 - id));
          length = a.length - 1;
        })
