-- ===== src/Common/Storage/Others.antt =====
-- common/storage.c: a write by a dotted key leaves the other paths alone; the calls on dotted keys.
use intense_logic.Base.{=b_eq, =b_self, ◌=b◌}
use intense_logic.Base.{
  ℕ, ◌<◌, ◌≡◌, refl, sym, ap, ◌∙◌, inl, inr, Bool, true, false, some, List, [], ◌∷◌, arith, length,
  Bool-cases,
}
use mathlib.Core.Path.{subst}
use intense_logic.Base.{◌>>=◌}
use intense_logic.Common.Storage.{Value, invalid, table, Items, no_items, value_free}
use intense_logic.Common.Storage.Table.{Uthash, gets, sets}
use intense_logic.Common.Storage.Sound.{IsSound, IsTable}
use intense_logic.Common.Storage.Lookup.{lookup, put, lookup-put, lookup-write_item, lookup-IsSound}
use intense_logic.Common.Storage.Path.{
  segments, get_path, set_path, get_path_step, set_path_step, lookup-write_item_self,
  lookup-put_self, gets_lem, sets_lem, get_path-no_items,
}
use intense_logic.Common.Storage.RoundTrip.{
  is_open, parts, set_path-IsTable, get_path-set_path, set_path_blocked, get_path_blocked,
}

get_path_congr :
    (j : List ℕ) (q : List (List ℕ)) (t t' : Items)
    → lookup j t ≡ lookup j t'
    → get_path j q t ≡ get_path j q t'
unfolding get_path
get_path_congr j [] t t' e = e
get_path_congr j (j' ∷ q) t t' e =
    get_path_step j j' q t (lookup j t') e ∙ sym (get_path_step j j' q t' (lookup j t') refl)

=b_sym_false : (s j : List ℕ) → (s =b j) ≡ false → (j =b s) ≡ false
=b_sym_false s j h = ground (arith, =b_eq j s, =b_self j)

-- The other names of the table
lookup_beside :
    (j s s' : List ℕ) (r : List (List ℕ)) (val : Value) (t : Items) (v : Value)
    → lookup s t ≡ v
    → IsTable t
    → (j =b s) ≡ false
    → lookup j (set_path s (s' ∷ r) val t) ≡ lookup j t
lookup_beside j s s' r val t (table tab) e h n =
    rw (set_path_step s s' r val t _ e)
      (lookup-write_item j s (table (set_path s' r val tab)) t (λ q. cc) ∙ rw n refl)
lookup_beside j s s' r val t invalid e h n =
    let new = lookup-put_self s (table no_items) t h in
    rw (set_path_step s s' r val t _ e) (
      lookup-write_item j s (table (set_path s' r val no_items)) (put s (table no_items) t)
        (λ q. cc)
      ∙ rw n (lookup-put j s (table no_items) t h ∙ rw n refl))
lookup_beside j s s' r val t _ e h n = rw (set_path_step s s' r val t _ e) refl

lookup-set_path :
    (j s : List ℕ) (r : List (List ℕ)) (val : Value) (t : Items)
    → IsTable t
    → (s =b j) ≡ false
    → lookup j (set_path s r val t) ≡ lookup j t
unfolding set_path
lookup-set_path j s [] val t h n = lookup-put j s val t h ∙ rw (=b_sym_false s j n) refl
lookup-set_path j s (s' ∷ r) val t h n =
    lookup_beside j s s' r val t (lookup s t) refl h (=b_sym_false s j n)

other_below :
    (s s' j' : List ℕ) (r q : List (List ℕ)) (val : Value) (t : Items) (v : Value)
    → lookup s t ≡ v
    → IsTable t
    → IsSound v
    → ((tab : Items) → IsTable tab → get_path j' q (set_path s' r val tab) ≡ get_path j' q tab)
    → get_path s (j' ∷ q) (set_path s (s' ∷ r) val t) ≡ get_path s (j' ∷ q) t
unfolding IsTable
other_below s s' j' r q val t (table tab) e h g ih =
    let set = lookup-write_item_self s (table (set_path s' r val tab)) t (λ p. cc) in
    rw (set_path_step s s' r val t _ e, get_path_step s j' q _ _ set, get_path_step s j' q t _ e)
      (ih tab g)
other_below s s' j' r q val t invalid e h g ih =
    let made = lookup-put_self s (table no_items) t h in
    let set =
      lookup-write_item_self s (table (set_path s' r val no_items)) (put s (table no_items) t)
        (λ p. cc) in
    rw (set_path_step s s' r val t _ e, get_path_step s j' q _ _ set, get_path_step s j' q t _ e)
      (ih no_items tt ∙ get_path-no_items j' q)
other_below s s' j' r q val t _ e h g ih = rw (set_path_step s s' r val t _ e) refl

get_path-set_path_other :
    (s j : List ℕ) (r q : List (List ℕ)) (val : Value) (t : Items)
    → IsTable t
    → parts s r j q ≡ true
    → get_path j q (set_path s r val t) ≡ get_path j q t
unfolding parts
get_path-set_path_other s j [] q val t h p =
    get_path_congr j q _ t (lookup-set_path j s [] val t h (ground arith))
get_path-set_path_other s j (s' ∷ r) [] val t h p =
    get_path_congr j [] _ t (lookup-set_path j s (s' ∷ r) val t h (ground arith))
get_path-set_path_other s j (s' ∷ r) (j' ∷ q) val t h p = elim (Bool-cases (s =b j)) [
  | inr n ↦ get_path_congr j (j' ∷ q) _ t (lookup-set_path j s (s' ∷ r) val t h n)
  | inl e ↦
      let below : parts s' r j' q ≡ true = ground arith in
      subst (λ k. get_path k (j' ∷ q) (set_path s (s' ∷ r) val t) ≡ get_path k (j' ∷ q) t)
        (=b_eq s j e)
        (other_below s s' j' r q val t (lookup s t) refl h (lookup-IsSound s t h)
          (λ tab g. get_path-set_path_other s' j' r q val tab g below))
]

-- The path of a key
abbrev pub open_path : List ℕ → Items → Bool
open_path key t = is_open (segments key).0 (segments key).1 t

abbrev pub apart : List ℕ → List ℕ → Bool
apart key key' = parts (segments key).0 (segments key).1 (segments key').0 (segments key').1

module _ (u : Uthash) (fuel : ℕ) (t : Items) (key : List ℕ) (val : Value) where
  -- A value that is stored by a dotted key is read back by that key, if no name but the last of
  -- the key is that of a value other than a table. The table has sound keys, down to the leaves:
  -- strings of their own, each only once; so has the value, if it is a table. The fuel is more than
  -- the key has bytes.
  pub gets-sets :
      IsTable t
      → IsSound val
      → length key < fuel
      → open_path key t ≡ true
      → (sets u fuel t key val >>= λ r. gets u fuel (r.0) key) ≡ some val
  gets-sets h k l o = rw (sets_lem u fuel t key val h l) (
      gets_lem u fuel _ key (set_path-IsTable _ _ val t h k) l
      ∙ ap some (get_path-set_path _ _ val t h o))

  -- A write by a dotted key changes no look-up by a key whose path does not lead through the
  -- written one, nor the other way round. The table has sound keys, down to the leaves: strings of
  -- their own, each only once; so has the value, if it is a table. The fuel is more than either key
  -- has bytes.
  pub gets-sets_other :
      (key' : List ℕ)
      → IsTable t
      → IsSound val
      → length key < fuel
      → length key' < fuel
      → apart key key' ≡ true
      → (sets u fuel t key val >>= λ r. gets u fuel (r.0) key') ≡ gets u fuel t key'
  gets-sets_other key' h k l l' p =
      rw (sets_lem u fuel t key val h l, gets_lem u fuel t key' h l')
        (gets_lem u fuel _ key' (set_path-IsTable _ _ val t h k) l'
          ∙ ap some (get_path-set_path_other _ _ _ _ val t h p))

  -- A write through a value that is neither a table nor missing changes nothing, calls no
  -- destructor and returns the invalid value; the table has sound keys, and the fuel is more than
  -- the key has bytes.
  pub sets_blocked :
      IsTable t
      → length key < fuel
      → open_path key t ≡ false
      → sets u fuel t key val ≡ some (t, invalid, [])
  unfolding value_free
  sets_blocked h l o =
      rw (sets_lem u fuel t key val h l)
        (rw (set_path_blocked _ _ val t h o, get_path_blocked _ _ t o) refl)
