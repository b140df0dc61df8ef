-- ===== src/Common/Storage/Tests.antt =====
-- common/storage.c on a small table.
use intense_logic.Base.{ℕ, ◌≡◌, refl, some, List, [], ◌∷◌, arith}
use intense_logic.Base.{◌>>=◌}
use intense_logic.Common.Storage.{
  invalid, nil, true_value, int, string, Items, no_items, item, le_bytes, hash_data, kept_data,
}
use intense_logic.Common.Storage.Table.{
  Uthash, find_item, without, add_last, getv, setv, gets, sets, split_dot, IsReadable,
}
use intense_logic.Common.Storage.Sound.{IsSound, IsTable}
use intense_logic.Common.Storage.Lookup.{lookup}
use intense_logic.Common.Storage.Path.{segments, sets_lem, Stored}
use intense_logic.Common.Storage.RoundTrip.{is_open, parts}
use intense_logic.Common.Storage.Others.{gets-sets, gets-sets_other, sets_blocked}
use intense_logic.Common.Storage.Dead.{setv-dead}

abbrev association : Uthash
association = record {
  hash_find = λ k t. some (find_item k t);
  hash_del = without;
  hash_add = add_last;
  find_lem = λ k t r. refl;
  del_lem = λ k t r. refl;
  add_lem = λ hh k v t. refl;
}

-- "a" and "b.c"
abbrev a_key : List ℕ
a_key = 97 ∷ []

abbrev b_c_key : List ℕ
b_c_key = 98 ∷ 46 ∷ 99 ∷ []

abbrev a_b_key : List ℕ
a_b_key = 97 ∷ 46 ∷ 98 ∷ []

-- "a" is 7.
abbrev seven : Items
seven = item (some a_key) (string a_key) (int 7) no_items

seven-IsTable : IsTable seven
unfolding IsTable find_item
seven-IsTable = (refl, refl, tt, tt)

sets_lem_example :
    sets association 9 seven b_c_key (int 8)
    ≡ some (Stored (98 ∷ []) ((99 ∷ []) ∷ []) (int 8) seven)
unfolding segments
sets_lem_example = sets_lem association 9 seven b_c_key (int 8) seven-IsTable (omega arith)

gets-sets_example :
    (sets association 9 seven b_c_key (int 8) >>= λ r. gets association 9 (r.0) b_c_key)
    ≡ some (int 8)
unfolding segments is_open lookup find_item IsSound
gets-sets_example =
    gets-sets association 9 seven b_c_key (int 8) seven-IsTable tt (omega arith) refl

gets-sets_other_example :
    (sets association 9 seven b_c_key (int 8) >>= λ r. gets association 9 (r.0) a_key)
    ≡ gets association 9 seven a_key
unfolding segments parts IsSound
gets-sets_other_example =
    gets-sets_other association 9 seven b_c_key (int 8) a_key seven-IsTable tt (omega arith)
      (omega arith) refl

sets_blocked_example : sets association 9 seven a_b_key (int 8) ≡ some (seven, invalid, [])
unfolding segments is_open lookup find_item
sets_blocked_example =
    sets_blocked association 9 seven a_b_key (int 8) seven-IsTable (omega arith) refl

setv-dead_example :
    (t' : Items) × (freed : List (ℕ × ℕ)) × (setv association seven (int 3) nil
      ≡ some (t', nil, freed))
    × (¬ IsReadable t')
unfolding hash_data kept_data
setv-dead_example = setv-dead association seven (int 3) nil (le_bytes 4 3) tt refl refl

-- The number 2 finds what is stored for true.
two_is_true : hash_data (int 2) ≡ hash_data true_value
unfolding hash_data
two_is_true = refl

found_again : gets association 9 seven a_key ≡ some (int 7)
unfolding gets getv split_dot hash_data find_item
found_again = refl
