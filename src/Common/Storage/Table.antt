-- ===== src/Common/Storage/Table.antt =====
-- common/storage.c: tables. The hash table is uthash's, a parameter: what it does to the items.
use intense_logic.Base.{◌=b◌}
use intense_logic.Base.{
  ℕ, zero, suc, ◌≡◌, Bool, false, Option, none, some, List, [], ◌∷◌, ◌++◌, ◌==◌, if◌then◌else◌,
  length, set,
}
use Prim.Native.Nat.{ℕ}
use intense_logic.Base.{◌>>=◌}
use intense_logic.Common.Storage.{
  Value, invalid, string, int, table, Items, no_items, item, hash_data, kept_data, value_slice,
  value_free,
}

-- Every item's key can be read.
abbrev pub IsReadable : Items → Type 0
IsReadable no_items = Unit {0}
IsReadable (item none key val rest) = ⊥
IsReadable (item (some k) key val rest) = IsReadable rest

abbrev pub has_key : List ℕ → Option (List ℕ) → Bool
has_key k none = false
has_key k (some k') = k =b k'

-- The value of the first item with a key
unfoldable pub find_item : List ℕ → Items → Option (Value × Value)
find_item k no_items = none
find_item k (item hh key val rest) = if has_key k hh then some (key, val) else find_item k rest

unfoldable pub without : List ℕ → Items → Items
without k no_items = no_items
without k (item hh key val rest) = if has_key k hh then rest else item hh key val (without k rest)

unfoldable pub add_last : Option (List ℕ) → Value → Value → Items → Items
add_last hh k v no_items = item hh k v no_items
add_last hh k v (item hh' key val rest) = item hh' key val (add_last hh k v rest)

-- What the code calls of uthash, on the items in the order of `HASH_ITER`: `hash_find` is `none`
-- if it reads a dead key, else the item's key and value, if any. An added item comes last.
pub record Uthash : Type 0 where
  pub hash_find : List ℕ → Items → Option (Option (Value × Value))
  pub hash_del : List ℕ → Items → Items
  pub hash_add : Option (List ℕ) → Value → Value → Items → Items
  pub find_lem : (k : List ℕ) (t : Items) → IsReadable t → hash_find k t ≡ some (find_item k t)
  pub del_lem : (k : List ℕ) (t : Items) → IsReadable t → hash_del k t ≡ without k t
  pub add_lem :
      (hh : Option (List ℕ)) (k v : Value) (t : Items) → hash_add hh k v t ≡ add_last hh k v t

-- A write through the pointer to an item's value
unfoldable pub write_item : List ℕ → Value → Items → Items
write_item k v no_items = no_items
write_item k v (item hh key val rest) =
    if has_key k hh then item hh key v rest else item hh key val (write_item k v rest)

abbrev pub cons_name : ℕ → Option (List ℕ × List ℕ) → Option (List ℕ × List ℕ)
cons_name c none = none
cons_name c (some (s, rest)) = some (c ∷ s, rest)

-- `strchr(key, '.')`: what stands before the first dot and after it.
unfoldable pub split_dot : List ℕ → Option (List ℕ × List ℕ)
split_dot [] = none
split_dot (c ∷ cs) = if c == 46 then some ([], cs) else cons_name c (split_dot cs)

abbrev pub item_value : Option (Value × Value) → Value
item_value none = invalid
item_value (some (k, v)) = v

-- The destructors that run when an item is replaced
abbrev pub item_free : Option (Value × Value) → List (ℕ × ℕ)
item_free none = []
item_free (some (k, v)) = value_free k ++ value_free v

module _ (u : Uthash) where
  -- `il_table_mgetv`, `il_table_getv`: `invalid` is the address of the value of that name.
  unfoldable pub getv : Items → Value → Option Value
  getv t key = elim (hash_data key) [
    | none ↦ some invalid
    | some k ↦ u.hash_find k t >>= λ r. some (item_value r)
  ]

  -- The descent of `il_table_mgets`, `il_table_gets`, with fuel for the dots of the key
  unfoldable pub gets : ℕ → Items → List ℕ → Option Value
  gets zero t key = none
  gets (suc fuel) t key = elim (split_dot key) [
    | none ↦ getv t (string key)
    | some (s, rest) ↦ getv t (value_slice key (length s)) >>= λ v. elim v [
      | table tab ↦ gets fuel tab rest
      | _ ↦ some invalid
    ]
  ]

  -- `il_table_mgeti`, `il_table_geti`
  unfoldable pub geti : Items → ℕ → Option Value
  geti t key = getv t (int key)

  -- `il_table_setv`: the table, the value that the result points to and the destructors called.
  unfoldable pub setv : Items → Value → Value → Option (Items × Value × List (ℕ × ℕ))
  setv t key val = elim (hash_data key) [
    | none ↦ some (t, invalid, [])
    | some k ↦ u.hash_find k t >>= λ old.
        let t' : Items = elim old [ none ↦ t | some _ ↦ u.hash_del k t ] in
        some (u.hash_add (kept_data key) key val t', val, item_free old)
  ]

  -- The node for a part of the path: a table is made where there is none, like mkdir -p.
  unfoldable pub node : Items → Value → Option (Items × Value × List (ℕ × ℕ))
  node t key =
      getv t key >>= λ v. elim v [ invalid ↦ setv t key (table no_items) | w ↦ some (t, w, []) ]

  -- `il_table_sets`
  unfoldable pub sets : ℕ → Items → List ℕ → Value → Option (Items × Value × List (ℕ × ℕ))
  sets zero t key val = none
  sets (suc fuel) t key val = elim (split_dot key) [
    | none ↦ setv t (string key) val
    | some (s, rest) ↦ node t (value_slice key (length s)) >>= λ (t', v, freed). elim v [
      | table tab ↦ sets fuel tab rest val >>= λ (tab', r, freed').
          some (write_item s (table tab') t', r, freed ++ freed')
      | _ ↦ some (t', invalid, freed)
    ]
  ]

  -- `il_table_seti`
  unfoldable pub seti : Items → ℕ → Value → Option (Items × Value × List (ℕ × ℕ))
  seti t key val = setv t (int key) val

-- `getfunc`: `il_table_getvb` and the like convert what `il_table_getv` and the like return.
unfoldable pub getfunc :
    {K R : Type 0} → (Items → K → Option Value) → (Value → R) → Items → K → Option R
getfunc get vop t key = get t key >>= λ v. some (vop v)

-- `setfunc`: `il_table_setvb` and the like convert what they give `il_table_setv` and the like.
unfoldable pub setfunc :
    {K T : Type 0}
    → (Items → K → Value → Option (Items × Value × List (ℕ × ℕ)))
    → (T → Value)
    → Items
    → K
    → T
    → Option (Items × Value × List (ℕ × ℕ))
setfunc set vop t key val = set t key (vop val)
