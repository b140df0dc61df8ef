-- ===== src/Common/Storage/RoundTrip.antt =====
-- common/storage.c: what a look-up by a dotted key finds after a write by one.
use intense_logic.Base.{◌=b◌}
use intense_logic.Base.{
  ℕ, ◌≡◌, refl, sym, ap, ◌∙◌, Bool, true, false, not, List, [], ◌∷◌, if◌then◌else◌,
}
use intense_logic.Common.Storage.{Value, invalid, table, Items, no_items}
use intense_logic.Common.Storage.Table.{find_item}
use intense_logic.Common.Storage.Sound.{IsSound, IsTable, write_item-IsTable}
use intense_logic.Common.Storage.Lookup.{
  write_item-lookup, lookup, put, lookup-IsSound, put-IsTable,
}
use intense_logic.Common.Storage.Path.{
  get_path, set_path, get_path_step, set_path_step, lookup-write_item_self, lookup-put_self,
}

-- Every name but the last is a table's, or nothing's.
unfoldable pub is_open : List ℕ → List (List ℕ) → Items → Bool
is_open s [] t = true
is_open s (s' ∷ r) t = elim (lookup s t) [
  | table tab ↦ is_open s' r tab
  | invalid ↦ true
  | _ ↦ false
]

-- Neither path leads through the other.
unfoldable pub parts : List ℕ → List (List ℕ) → List ℕ → List (List ℕ) → Bool
parts s [] j q = not (s =b j)
parts s (s' ∷ r) j [] = not (s =b j)
parts s (s' ∷ r) j (j' ∷ q) = if s =b j then parts s' r j' q else true

is_open_step :
    (s s' : List ℕ) (r : List (List ℕ)) (t : Items) (v : Value)
    → lookup s t ≡ v
    → is_open s (s' ∷ r) t ≡ (elim v [ table tab ↦ is_open s' r tab | invalid ↦ true | _ ↦ false ])
unfolding is_open
is_open_step s s' r t v e =
    ap (λ (w : Value). elim w [ table tab ↦ is_open s' r tab | invalid ↦ true | _ ↦ false ]) e

is_open-no_items : (s : List ℕ) (r : List (List ℕ)) → is_open s r no_items ≡ true
unfolding is_open lookup find_item
is_open-no_items s [] = refl
is_open-no_items s (s' ∷ r) = refl

-- One name of a write, for each value that may stand there
set_below :
    (s s' : List ℕ) (r : List (List ℕ)) (val : Value) (t : Items) (v : Value)
    → lookup s t ≡ v
    → IsTable t
    → ((tab : Items) → IsTable tab → IsTable (set_path s' r val tab))
    → IsSound v
    → IsTable (set_path s (s' ∷ r) val t)
unfolding IsTable
set_below s s' r val t (table tab) e h ih g =
    rw (set_path_step s s' r val t _ e) (write_item-IsTable s _ t h (ih tab g))
set_below s s' r val t invalid e h ih g = rw (set_path_step s s' r val t _ e) (
    write_item-IsTable s _ (put s (table no_items) t) (put-IsTable s (table no_items) t h tt)
      (ih no_items tt))
set_below s s' r val t _ e h ih g = rw (set_path_step s s' r val t _ e) h

pub set_path-IsTable :
    (s : List ℕ) (r : List (List ℕ)) (val : Value) (t : Items)
    → IsTable t
    → IsSound val
    → IsTable (set_path s r val t)
unfolding set_path
set_path-IsTable s [] val t h k = put-IsTable s val t h k
set_path-IsTable s (s' ∷ r) val t h k =
    set_below s s' r val t (lookup s t) refl h (λ tab g. set_path-IsTable s' r val tab g k)
      (lookup-IsSound s t h)

get_below :
    (s s' : List ℕ) (r : List (List ℕ)) (val : Value) (t : Items) (v : Value)
    → lookup s t ≡ v
    → IsTable t
    → ((tab : Items)
        → IsTable tab
        → is_open s' r tab ≡ true
        → get_path s' r (set_path s' r val tab) ≡ val)
    → IsSound v
    → is_open s (s' ∷ r) t ≡ true
    → get_path s (s' ∷ r) (set_path s (s' ∷ r) val t) ≡ val
unfolding IsTable
get_below s s' r val t (table tab) e h ih g o =
    let set = lookup-write_item_self s (table (set_path s' r val tab)) t (λ q. cc) in
    rw (set_path_step s s' r val t _ e, get_path_step s s' r _ _ set)
      (ih tab g (sym (is_open_step s s' r t _ e) ∙ o))
get_below s s' r val t invalid e h ih g o =
    let made = lookup-put_self s (table no_items) t h in
    let set =
      lookup-write_item_self s (table (set_path s' r val no_items)) (put s (table no_items) t)
        (λ q. cc) in
    rw (set_path_step s s' r val t _ e, get_path_step s s' r _ _ set)
      (ih no_items tt (is_open-no_items s' r))
get_below s s' r val t _ e h ih g o = absurd (cc (is_open_step s s' r t _ e))

pub get_path-set_path :
    (s : List ℕ) (r : List (List ℕ)) (val : Value) (t : Items)
    → IsTable t
    → is_open s r t ≡ true
    → get_path s r (set_path s r val t) ≡ val
unfolding get_path set_path
get_path-set_path s [] val t h o = lookup-put_self s val t h
get_path-set_path s (s' ∷ r) val t h o =
    get_below s s' r val t (lookup s t) refl h (get_path-set_path s' r val) (lookup-IsSound s t h) o

blocked_below :
    (s s' : List ℕ) (r : List (List ℕ)) (val : Value) (t : Items) (v : Value)
    → lookup s t ≡ v
    → ((tab : Items) → IsTable tab → is_open s' r tab ≡ false → set_path s' r val tab ≡ tab)
    → IsSound v
    → IsTable t
    → is_open s (s' ∷ r) t ≡ false
    → set_path s (s' ∷ r) val t ≡ t
unfolding IsSound
blocked_below s s' r val t (table tab) e ih g h o =
    rw (set_path_step s s' r val t _ e, ih tab g (sym (is_open_step s s' r t _ e) ∙ o))
      (write_item-lookup s t (table tab) e)
blocked_below s s' r val t invalid e ih g h o = absurd (cc (is_open_step s s' r t _ e))
blocked_below s s' r val t _ e ih g h o = set_path_step s s' r val t _ e

pub set_path_blocked :
    (s : List ℕ) (r : List (List ℕ)) (val : Value) (t : Items)
    → IsTable t
    → is_open s r t ≡ false
    → set_path s r val t ≡ t
unfolding is_open
set_path_blocked s [] val t h o = cc
set_path_blocked s (s' ∷ r) val t h o =
    blocked_below s s' r val t (lookup s t) refl (set_path_blocked s' r val) (lookup-IsSound s t h)
      h o

blocked_get_below :
    (s s' : List ℕ) (r : List (List ℕ)) (t : Items) (v : Value)
    → lookup s t ≡ v
    → ((tab : Items) → is_open s' r tab ≡ false → get_path s' r tab ≡ invalid)
    → is_open s (s' ∷ r) t ≡ false
    → get_path s (s' ∷ r) t ≡ invalid
blocked_get_below s s' r t (table tab) e ih o =
    get_path_step s s' r t _ e ∙ ih tab (sym (is_open_step s s' r t _ e) ∙ o)
blocked_get_below s s' r t invalid e ih o = get_path_step s s' r t _ e
blocked_get_below s s' r t _ e ih o = get_path_step s s' r t _ e

pub get_path_blocked :
    (s : List ℕ) (r : List (List ℕ)) (t : Items) → is_open s r t ≡ false → get_path s r t ≡ invalid
unfolding is_open
get_path_blocked s [] t o = cc
get_path_blocked s (s' ∷ r) t o =
    blocked_get_below s s' r t (lookup s t) refl (get_path_blocked s' r) o
