-- ===== src/Common/Storage/Lookup.antt =====
-- common/storage.c: a table as a map from strings to values, and its calls on a string key.
use intense_logic.Base.{=b_eq, =b_self, ◌=b◌}
use intense_logic.Base.{
  bind_some, ℕ, ◌≡◌, refl, sym, ap, ◌∙◌, ◌≢◌, inl, inr, none, some, List, [], arith, if◌then◌else◌,
  Bool-cases,
}
use intense_logic.Base.{Option-cases}
use intense_logic.Common.Storage.{
  Value, invalid, string, Items, no_items, item, hash_data, kept_data, value_free,
}
use intense_logic.Common.Storage.Table.{
  item_value, find_item, without, add_last, write_item, Uthash, getv, setv,
}
use intense_logic.Common.Storage.Sound.{
  IsSound, IsTable, IsTable-IsReadable, find_item-without, find_item-add_last, find_item-write_item,
  without-IsTable, add_last-IsTable,
}

-- The value of a key, `invalid` for none
unfoldable pub lookup : List ℕ → Items → Value
lookup k t = item_value (find_item k t)

-- The table with a value under a key
unfoldable pub put : List ℕ → Value → Items → Items
put k v t = add_last (some k) (string k) v (without k t)

pub lookup-put :
    (j k : List ℕ) (v : Value) (t : Items)
    → IsTable t
    → lookup j (put k v t) ≡ (if j =b k then v else lookup j t)
unfolding lookup put
lookup-put j k v t h =
    let gone : find_item k (without k t) ≡ none =
      find_item-without k k t h ∙ ground (arith, =b_self k) in
    ap item_value (find_item-add_last j k (string k) v (without k t) gone)
    ∙ ground (arith, find_item-without j k t h)

pub lookup-write_item :
    (j k : List ℕ) (v : Value) (t : Items)
    → lookup k t ≢ invalid
    → lookup j (write_item k v t) ≡ (if j =b k then v else lookup j t)
unfolding lookup
lookup-write_item j k v t h =
    ap item_value (find_item-write_item j k v t) ∙ elim (Bool-cases (j =b k)) [
      | inr q ↦ rw q refl
      | inl q ↦ elim (Option-cases (find_item k t)) [
        | inl e ↦ absurd (h (ap item_value e))
        | inr (kv, e) ↦ rw (q, =b_eq j k q, e) refl
      ]
    ]

pub put-IsTable : (k : List ℕ) (v : Value) (t : Items) → IsTable t → IsSound v → IsTable (put k v t)
unfolding put
put-IsTable k v t h s =
    add_last-IsTable k v (without k t) (without-IsTable k t h) s
      (find_item-without k k t h ∙ ground (arith, =b_self k))

-- A write of what stands there
pub write_item-lookup : (k : List ℕ) (t : Items) (v : Value) → lookup k t ≡ v → write_item k v t ≡ t
unfolding lookup find_item write_item
write_item-lookup k no_items v e = refl
write_item-lookup k (item none key val rest) v e =
    ap (λ r. item none key val r) (write_item-lookup k rest v e)
write_item-lookup k (item (some k') key val rest) v e = elim (Bool-cases (k =b k')) [
  | inl q ↦ rw q (ap (λ w. item (some k') key w rest) (sym (rw q at e)))
  | inr q ↦ rw q (ap (λ r. item (some k') key val r) (write_item-lookup k rest v (rw q at e)))
]

pub lookup-IsSound : (k : List ℕ) (t : Items) → IsTable t → IsSound (lookup k t)
unfolding lookup find_item IsTable
lookup-IsSound k no_items h = tt
lookup-IsSound k (item none key val rest) h = absurd h
lookup-IsSound k (item (some k') key val rest) h = elim (Bool-cases (k =b k')) [
  | inl e ↦ rw e h.2
  | inr e ↦ rw e (lookup-IsSound k rest h.3)
]

-- The key of an item is the string that it is found by.
find_item-key :
    (k : List ℕ) (t : Items) (key v : Value)
    → IsTable t
    → find_item k t ≡ some (key, v)
    → key ≡ string k
unfolding find_item IsTable
find_item-key k no_items key v h e = cc
find_item-key k (item none key' val rest) key v h e = absurd h
find_item-key k (item (some k') key' val rest) key v h e =
    ground (arith, h.0, find_item-key k rest key v h.3, =b_eq k k')

find_item-free :
    (k : List ℕ) (t : Items) (key v : Value)
    → IsTable t
    → find_item k t ≡ some (key, v)
    → value_free key ≡ []
unfolding value_free
find_item-free k t key v h e = rw (find_item-key k t key v h e) refl

without_absent : (k : List ℕ) (t : Items) → find_item k t ≡ none → without k t ≡ t
unfolding find_item without
without_absent k no_items e = refl
without_absent k (item none key val rest) e =
    ap (λ r. item none key val r) (without_absent k rest e)
without_absent k (item (some k') key val rest) e = elim (Bool-cases (k =b k')) [
  | inl q ↦ absurd (ground arith)
  | inr q ↦ rw q (ap (λ r. item (some k') key val r) (without_absent k rest (ground arith)))
]

module _ (u : Uthash) where
  pub getv_runs : (t : Items) (k : List ℕ) → IsTable t → getv u t (string k) ≡ some (lookup k t)
  unfolding getv hash_data lookup
  getv_runs t k h = bind_some _ (u.find_lem k t (IsTable-IsReadable t h))

  pub setv_runs :
      (t : Items) (k : List ℕ) (v : Value)
      → IsTable t
      → setv u t (string k) v ≡ some (put k v t, v, value_free (lookup k t))
  unfolding setv hash_data kept_data lookup put value_free
  setv_runs t k v h =
      let r = IsTable-IsReadable t h in
      bind_some _ (u.find_lem k t r) ∙ elim (Option-cases (find_item k t)) [
        | inl e ↦ rw (e, u.add_lem (some k) (string k) v t, without_absent k t e) refl
        | inr ((key, old), e) ↦
            rw
              (
                e,
                u.del_lem k t r,
                u.add_lem (some k) (string k) v (without k t),
                find_item-free k t key old h e,
              )
              refl
      ]
