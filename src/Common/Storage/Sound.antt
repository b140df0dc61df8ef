-- ===== src/Common/Storage/Sound.antt =====
-- common/storage.c: tables whose keys are strings of their own, each only once, down to the leaves.
use intense_logic.Base.{◌=b◌, =b_self, =b_eq}
use intense_logic.Base.{
  ℕ, ◌≡◌, refl, ◌∙◌, inl, inr, false, Option, none, some, List, arith, if◌then◌else◌, Bool-cases,
}
use intense_logic.Common.Storage.{Value, string, table, Items, no_items, item}
use intense_logic.Common.Storage.Table.{find_item, without, add_last, write_item, IsReadable}

unfoldable mutual
  pub IsSound : Value → Type 0
  IsSound (table t) = IsTable t
  IsSound _ = Unit {0}

  pub IsTable : Items → Type 0
  IsTable no_items = Unit {0}
  IsTable (item none key val rest) = ⊥
  IsTable (item (some k) key val rest) =
      (key ≡ string k) × (find_item k rest ≡ none) × IsSound val × IsTable rest

pub IsTable-IsReadable : (t : Items) → IsTable t → IsReadable t
unfolding IsTable
IsTable-IsReadable no_items h = tt
IsTable-IsReadable (item none key val rest) h = h
IsTable-IsReadable (item (some k) key val rest) h = IsTable-IsReadable rest h.3

-- What a search finds in the updated items
pub find_item-without :
    (j k : List ℕ) (t : Items)
    → IsTable t
    → find_item j (without k t) ≡ (if j =b k then none else find_item j t)
unfolding find_item without IsTable
find_item-without j k no_items h = ground arith
find_item-without j k (item none key val rest) h = absurd h
find_item-without j k (item (some k') key val rest) h =
    ground
      (arith, h.1, find_item-without j k rest h.3, =b_self j, =b_eq j k, =b_eq j k', =b_eq k k')

pub find_item-add_last :
    (j k : List ℕ) (key v : Value) (t : Items)
    → find_item k t ≡ none
    → find_item j (add_last (some k) key v t) ≡ (if j =b k then some (key, v) else find_item j t)
unfolding find_item add_last
find_item-add_last j k key v no_items h = ground arith
find_item-add_last j k key v (item none key' val rest) h =
    ground (arith, find_item-add_last j k key v rest)
find_item-add_last j k key v (item (some k') key' val rest) h =
    ground (arith, find_item-add_last j k key v rest, =b_eq j k, =b_eq j k')

abbrev pub with_value : Value → Option (Value × Value) → Option (Value × Value)
with_value v none = none
with_value v (some (key, val)) = some (key, v)

pub find_item-write_item :
    (j k : List ℕ) (v : Value) (t : Items)
    → find_item j (write_item k v t)
      ≡ (if j =b k then with_value v (find_item j t) else find_item j t)
unfolding find_item write_item
find_item-write_item j k v no_items = ground arith
find_item-write_item j k v (item none key val rest) =
    ground (arith, find_item-write_item j k v rest)
find_item-write_item j k v (item (some k') key val rest) =
    ground (arith, find_item-write_item j k v rest, =b_eq j k, =b_eq j k', =b_eq k k', =b_self j)

-- The updates keep tables sound.
pub without-IsTable : (k : List ℕ) (t : Items) → IsTable t → IsTable (without k t)
unfolding without IsTable
without-IsTable k no_items h = tt
without-IsTable k (item none key val rest) h = absurd h
without-IsTable k (item (some k') key val rest) h = elim (Bool-cases (k =b k')) [
  | inl e ↦ rw e h.3
  | inr e ↦
      rw e (
        h.0,
        find_item-without k' k rest h.3 ∙ ground (arith, h.1),
        h.2,
        without-IsTable k rest h.3,
      )
]

pub add_last-IsTable :
    (k : List ℕ) (v : Value) (t : Items)
    → IsTable t
    → IsSound v
    → find_item k t ≡ none
    → IsTable (add_last (some k) (string k) v t)
unfolding add_last IsTable find_item
add_last-IsTable k v no_items h s e = (refl, refl, s, tt)
add_last-IsTable k v (item none key val rest) h s e = absurd h
add_last-IsTable k v (item (some k') key val rest) h s e = elim (Bool-cases (k =b k')) [
  | inl q ↦ absurd (ground arith)
  | inr q ↦
      let absent : find_item k rest ≡ none = ground arith in
      let other : (k' =b k) ≡ false = ground (arith, =b_eq k' k, =b_self k') in
      (
        h.0,
        find_item-add_last k' k (string k) v rest absent ∙ ground (arith, h.1),
        h.2,
        add_last-IsTable k v rest h.3 s absent,
      )
]

pub write_item-IsTable :
    (k : List ℕ) (v : Value) (t : Items) → IsTable t → IsSound v → IsTable (write_item k v t)
unfolding write_item IsTable
write_item-IsTable k v no_items h s = tt
write_item-IsTable k v (item none key val rest) h s = absurd h
write_item-IsTable k v (item (some k') key val rest) h s = elim (Bool-cases (k =b k')) [
  | inl e ↦ rw e (h.0, h.1, s, h.3)
  | inr e ↦ rw e (
    h.0,
    find_item-write_item k' k v rest ∙ ground (arith, h.1),
    h.2,
    write_item-IsTable k v rest h.3 s,
  )
]
