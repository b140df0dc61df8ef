-- ===== src/Common/Storage/Dead.antt =====
-- common/storage.c: keys that are not strings.
use intense_logic.Base.{Option-cases, ℕ, ◌≡◌, refl, inl, inr, none, some, List, []}
use intense_logic.Common.Storage.{Value, Items, no_items, item, hash_data, kept_data}
use intense_logic.Common.Storage.Table.{
  find_item, without, add_last, IsReadable, item_free, Uthash, setv,
}

add_last-dead : (k v : Value) (t : Items) → ¬ IsReadable (add_last none k v t)
unfolding add_last
add_last-dead k v no_items h = h
add_last-dead k v (item none key val rest) h = h
add_last-dead k v (item (some s) key val rest) h = add_last-dead k v rest h

-- A value that is stored under a key that is hashed and is not a string leaves in the table a key
-- that points into the frame of the call, which is gone. The keys of the table could be read.
pub setv-dead :
    (u : Uthash) (t : Items) (key val : Value) (k : List ℕ)
    → IsReadable t
    → hash_data key ≡ some k
    → kept_data key ≡ none
    → (t' : Items) × (freed : List (ℕ × ℕ)) × (setv u t key val ≡ some (t', val, freed))
      × (¬ IsReadable t')
unfolding setv
setv-dead u t key val k r h e = elim (Option-cases (find_item k t)) [
  | inl f ↦ (
    add_last none key val t,
    [],
    rw (h, setv) (rw (u.find_lem k t r, f, e, u.add_lem none key val t) refl),
    add_last-dead key val t,
  )
  | inr (kv, f) ↦ (
    add_last none key val (without k t),
    item_free (some kv),
    rw (h, setv)
        (rw (u.find_lem k t r, f, e, u.del_lem k t r, u.add_lem none key val (without k t)) refl),
    add_last-dead key val (without k t),
  )
]
