-- ===== src/Common/Storage/Path.antt =====
-- common/storage.c: dotted keys. A path is its first name and the names after it.
use intense_logic.Base.{=b_self}
use intense_logic.Base.{
  bind_some, ℕ, zero, suc, ◌<◌, ◌≡◌, refl, ap, ◌∙◌, ◌≢◌, inl, inr, false, Option, none, some, List,
  [], ◌∷◌, ◌++◌, arith, ◌==◌, if◌then◌else◌, length, take, Bool-cases,
}
use mathlib.Core.Path.{subst}
use intense_logic.Base.{Option-cases}
use intense_logic.Base.{◌>>=◌}
use intense_logic.Common.Storage.{
  Value, invalid, string, table, Items, no_items, value_free, value_slice,
}
use intense_logic.Common.Storage.Table.{
  find_item, cons_name, split_dot, write_item, Uthash, gets, sets, node,
}
use intense_logic.Common.Storage.Sound.{IsSound, IsTable}
use intense_logic.Common.Storage.Lookup.{
  lookup-write_item, lookup, put, getv_runs, setv_runs, lookup-put, lookup-IsSound,
}

-- The names between the dots of a key
unfoldable pub segments : List ℕ → List ℕ × List (List ℕ)
segments [] = ([], [])
segments (c ∷ cs) = let (s, r) = segments cs in if c == 46 then ([], s ∷ r) else (c ∷ s, r)

-- What stands at a path
unfoldable pub get_path : List ℕ → List (List ℕ) → Items → Value
get_path s [] t = lookup s t
get_path s (s' ∷ r) t = elim (lookup s t) [ table tab ↦ get_path s' r tab | _ ↦ invalid ]

-- The table with a value at a path: missing tables are made, any other value blocks the path.
unfoldable pub set_path : List ℕ → List (List ℕ) → Value → Items → Items
set_path s [] v t = put s v t
set_path s (s' ∷ r) v t = elim (lookup s t) [
  | table tab ↦ write_item s (table (set_path s' r v tab)) t
  | invalid ↦ write_item s (table (set_path s' r v no_items)) (put s (table no_items) t)
  | _ ↦ t
]

-- The dot that `strchr` finds ends the first name.
abbrev IsSplit : List ℕ → Option (List ℕ × List ℕ) → Type 0
IsSplit key none = segments key ≡ (key, [])
IsSplit key (some (s, rest)) =
    (segments key ≡ (s, (segments rest).0 ∷ (segments rest).1))
    × (take (length s) key ≡ s)
    × (length rest < length key)

IsSplit-cons_name :
    (c : ℕ) (cs : List ℕ) (o : Option (List ℕ × List ℕ))
    → (c == 46) ≡ false
    → IsSplit cs o
    → IsSplit (c ∷ cs) (cons_name c o)
unfolding segments
IsSplit-cons_name c cs none e h = rw (e, h) refl
IsSplit-cons_name c cs (some (s, rest)) e (h, k, l) =
    (rw (e, h) refl, ap (λ r. c ∷ r) k, omega arith)

pub split_dot-segments : (key : List ℕ) → IsSplit key (split_dot key)
unfolding split_dot segments
split_dot-segments [] = refl
split_dot-segments (c ∷ cs) = elim (Bool-cases (c == 46)) [
  | inl e ↦ rw e (rw e refl, refl, omega arith)
  | inr e ↦ rw e (IsSplit-cons_name c cs (split_dot cs) e (split_dot-segments cs))
]

pub get_path-no_items : (s : List ℕ) (r : List (List ℕ)) → get_path s r no_items ≡ invalid
unfolding get_path lookup find_item
get_path-no_items s [] = refl
get_path-no_items s (s' ∷ r) = refl

pub get_path_step :
    (s s' : List ℕ) (r : List (List ℕ)) (t : Items) (v : Value)
    → lookup s t ≡ v
    → get_path s (s' ∷ r) t ≡ (elim v [ table tab ↦ get_path s' r tab | _ ↦ invalid ])
unfolding get_path
get_path_step s s' r t v e =
    ap (λ (w : Value). elim w [ table tab ↦ get_path s' r tab | _ ↦ invalid ]) e

pub set_path_step :
    (s s' : List ℕ) (r : List (List ℕ)) (val : Value) (t : Items) (v : Value)
    → lookup s t ≡ v
    → set_path s (s' ∷ r) val t ≡ (elim v [
      | table tab ↦ write_item s (table (set_path s' r val tab)) t
      | invalid ↦ write_item s (table (set_path s' r val no_items)) (put s (table no_items) t)
      | _ ↦ t
    ])
unfolding set_path
set_path_step s s' r val t v e =
    ap
      (λ (w : Value). elim w [
        | table tab ↦ write_item s (table (set_path s' r val tab)) t
        | invalid ↦ write_item s (table (set_path s' r val no_items)) (put s (table no_items) t)
        | _ ↦ t
      ])
      e

-- What a search finds under the name that an update went through
pub lookup-write_item_self :
    (s : List ℕ) (v : Value) (t : Items) → lookup s t ≢ invalid → lookup s (write_item s v t) ≡ v
lookup-write_item_self s v t h = lookup-write_item s s v t h ∙ ground (arith, =b_self s)

pub lookup-put_self : (s : List ℕ) (v : Value) (t : Items) → IsTable t → lookup s (put s v t) ≡ v
lookup-put_self s v t h = lookup-put s s v t h ∙ ground (arith, =b_self s)

-- What `il_table_sets` is to return
abbrev pub Stored : List ℕ → List (List ℕ) → Value → Items → Items × Value × List (ℕ × ℕ)
Stored s r v t = (set_path s r v t, get_path s r (set_path s r v t), value_free (get_path s r t))

module _ (u : Uthash) where
  -- The rest of a search below the value of the first name
  gets_below :
      (fuel : ℕ) (rest s' : List ℕ) (r : List (List ℕ))
      → ((tab : Items) → IsTable tab → gets u fuel tab rest ≡ some (get_path s' r tab))
      → (v : Value) → IsSound v
      → (elim v [ table tab ↦ gets u fuel tab rest | _ ↦ some invalid ])
        ≡ some (elim v [ table tab ↦ get_path s' r tab | _ ↦ invalid ])
  unfolding IsSound
  gets_below fuel rest s' r ih (table tab) h = ih tab h
  gets_below fuel rest s' r ih invalid h = refl
  gets_below fuel rest s' r ih _ h = refl

  -- `il_table_mgets` reads what stands at the path of its key, in a table whose keys are sound,
  -- given more fuel than the key has bytes.
  pub gets_lem :
      (fuel : ℕ) (t : Items) (key : List ℕ)
      → IsTable t
      → length key < fuel
      → gets u fuel t key ≡ some (get_path (segments key).0 (segments key).1 t)
  unfolding gets get_path value_slice
  gets_lem zero t key h l = absurd (omega arith)
  gets_lem (suc fuel) t key h l = elim (Option-cases (split_dot key)) [
    | inl e ↦
        let q : IsSplit key none = subst (IsSplit key) e (split_dot-segments key) in
        rw (e, gets) (rw q (getv_runs u t key h))
    | inr ((s, rest), e) ↦
        let (q, k, short) : IsSplit key (some (s, rest)) =
          subst (IsSplit key) e (split_dot-segments key) in
        rw (e, gets)
          (rw (q, k)
            (bind_some _ (getv_runs u t s h)
              ∙ gets_below fuel rest (segments rest).0 (segments rest).1
                  (λ tab g. gets_lem fuel tab rest g (omega arith)) (lookup s t)
                  (lookup-IsSound s t h)))
  ]

  sets_below :
      (fuel : ℕ) (s rest s' : List ℕ) (r : List (List ℕ)) (val : Value) (t : Items)
      → IsTable t
      → ((tab : Items) → IsTable tab → sets u fuel tab rest val ≡ some (Stored s' r val tab))
      → (v : Value) → lookup s t ≡ v
      → IsSound v
      → (node u t (string s) >>= λ (t', v, freed). elim v [
        | table tab ↦ sets u fuel tab rest val >>= λ (tab', r, freed').
            some (write_item s (table tab') t', r, freed ++ freed')
        | _ ↦ some (t', invalid, freed)
      ])
        ≡ some (Stored s (s' ∷ r) val t)
  unfolding node value_free IsTable
  sets_below fuel s rest s' r val t h ih (table tab) e g =
      let set = lookup-write_item_self s (table (set_path s' r val tab)) t (λ q. cc) in
      rw (getv_runs u t s h, e, ih tab g, set_path_step s s' r val t _ e)
        (rw (get_path_step s s' r t _ e, get_path_step s s' r _ _ set) refl)
  sets_below fuel s rest s' r val t h ih invalid e g =
      let made = lookup-put_self s (table no_items) t h in
      let set =
        lookup-write_item_self s (table (set_path s' r val no_items)) (put s (table no_items) t)
          (λ q. cc) in
      rw (getv_runs u t s h, e, setv_runs u t s (table no_items) h, e)
        (rw (ih no_items tt, set_path_step s s' r val t _ e)
          (rw (get_path_step s s' r t _ e, get_path_step s s' r _ _ set, get_path-no_items s' r)
            refl))
  sets_below fuel s rest s' r val t h ih _ e g =
      rw (getv_runs u t s h, e, set_path_step s s' r val t _ e, get_path_step s s' r t _ e) refl

  last :
      (key : List ℕ) (val : Value) (t : Items)
      → IsTable t
      → some (put key val t, val, value_free (lookup key t)) ≡ some (Stored key [] val t)
  unfolding set_path get_path
  last key val t h = rw (lookup-put_self key val t h) refl

  -- `il_table_sets` writes at the path of its key, in a table whose keys are sound, given more fuel
  -- than the key has bytes. It returns what then stands at the path, and calls the destructors of
  -- what stood there before.
  pub sets_lem :
      (fuel : ℕ) (t : Items) (key : List ℕ) (val : Value)
      → IsTable t
      → length key < fuel
      → sets u fuel t key val ≡ some (Stored (segments key).0 (segments key).1 val t)
  unfolding sets value_slice
  sets_lem zero t key val h l = absurd (omega arith)
  sets_lem (suc fuel) t key val h l = elim (Option-cases (split_dot key)) [
    | inl e ↦
        let q : IsSplit key none = subst (IsSplit key) e (split_dot-segments key) in
        rw (e, sets) (rw q (setv_runs u t key val h ∙ last key val t h))
    | inr ((s, rest), e) ↦
        let (q, k, short) : IsSplit key (some (s, rest)) =
          subst (IsSplit key) e (split_dot-segments key) in
        rw (e, sets)
          (rw (q, k)
            (sets_below fuel s rest (segments rest).0 (segments rest).1 val t h
              (λ tab g. sets_lem fuel tab rest val g (omega arith)) (lookup s t) refl
              (lookup-IsSound s t h)))
  ]
