-- ===== src/Common/Storage.antt =====
-- common/storage.c: tagged values, nested tables and vectors. A table and a vector are part of the
-- value that holds them, so two values that share a table's head are not modelled. An `int`, a
-- `float` and a pointer are their bit patterns; a string is its bytes before the NUL.
pub mod Table
pub mod Vector
pub mod Show
pub mod Sound
pub mod Lookup
pub mod Path
pub mod RoundTrip
pub mod Others
pub mod Dead
mod Tests
use intense_logic.Base.{
  ℕ, zero, suc, ◌+◌, ◌-◌, ◌*◌, ◌/◌, ◌%◌, ◌^◌, ◌≤◌, ◌<◌, min, ◌≡◌, refl, sym, ap, ap₂, ◌∙◌, ◌≢◌, ◌↔◌,
  ◌⊎◌, inl, inr, Bool, true, false, not, ◌&&◌, ◌||◌, Option, none, some, List, [], ◌∷◌, ◌++◌, map,
  append-nil, append_assoc, arith, ltb, leb, ◌==◌, if◌then◌else◌, length, get_elem?, get_or, set,
  take, drop, replicate, copy_at, Bool-cases, dec_lt, ℕ_discrete,
}
use Prim.Native.String.{String}
use intense_logic.Array.{Array}

mutual
  -- `il_value`; the destructor of an opaque value is `none` for NULL.
  pub data Value : Type 0 where
    invalid : Value
    nil : Value
    true_value : Value
    false_value : Value
    opaque : (ptr : ℕ) (dtor : Option ℕ) → Value
    string : (bytes : List ℕ) → Value
    int : (bits : ℕ) → Value
    float : (bits : ℕ) → Value
    table : Items → Value
    vector : (length capacity : ℕ) → Values → Value
    lua : ℕ → Value

  -- The `struct s_key`s of a table, in the order in which uthash links them. The first field is
  -- what `hh.key` points to; `none` is an address in the frame of a call that has returned.
  pub data Items : Type 0 where
    no_items : Items
    item : (hh_key : Option (List ℕ)) (key val : Value) → Items → Items

  -- The elements of a vector's storage
  pub data Values : Type 0 where
    no_values : Values
    value : Value → Values → Values

unfoldable pub to_list : Values → List Value
to_list no_values = []
to_list (value v vs) = v ∷ to_list vs

unfoldable pub of_list : List Value → Values
of_list [] = no_values
of_list (v ∷ vs) = value v (of_list vs)

-- The bytes of an integer in memory, on a little-endian machine.
unfoldable pub le_bytes : ℕ → ℕ → List ℕ
le_bytes zero n = []
le_bytes (suc k) n = (n % 256) ∷ le_bytes k (n / 256)

-- `enum il_storagetype`
unfoldable pub tag : Value → ℕ
tag invalid = 0
tag nil = 1
tag true_value = 2
tag false_value = 3
tag (opaque ptr dtor) = 4
tag (string bytes) = 5
tag (int bits) = 6
tag (float bits) = 7
tag (table items) = 8
tag (vector length capacity vs) = 9
tag (lua ref) = 10

-- `s_hash_data`: the bytes that a key is found by, `none` for NULL.
unfoldable pub hash_data : Value → Option (List ℕ)
unfolding le_bytes
hash_data invalid = some (le_bytes 4 0)
hash_data nil = some (le_bytes 4 1)
hash_data true_value = some (le_bytes 4 2)
hash_data false_value = some (le_bytes 4 3)
hash_data (opaque ptr dtor) = some (le_bytes 8 ptr)
hash_data (string bytes) = some bytes
hash_data (int bits) = some (le_bytes 4 bits)
hash_data (float bits) = some (le_bytes 4 bits)
hash_data (table items) = none
hash_data (vector length capacity vs) = none
hash_data (lua ref) = none

-- What `s_hash_data` returns points into the value, which is a parameter of the caller, but for a
-- string, which is on the heap: what is left of it when the caller has returned.
unfoldable pub kept_data : Value → Option (List ℕ)
kept_data (string bytes) = some bytes
kept_data _ = none

-- `il_value_bool`
abbrev pub value_bool : Bool → Value
value_bool b = if b then true_value else false_value

-- `il_value_slice`
unfoldable pub value_slice : List ℕ → ℕ → Value
value_slice str len = string (take len str)

-- `il_value_vector`, `il_value_tovec`
unfoldable pub value_vector : Array Value → Value
value_vector a = vector a.length a.capacity (of_list a.mem)

unfoldable pub to_vec : Value → Option (Array Value)
to_vec (vector n c vs) = some (record { mem = to_list vs; length = n; capacity = c })
to_vec _ = none

-- `il_value_copy`: a value that cannot be copied gives nil.
unfoldable pub value_copy : Value → Value
value_copy (opaque ptr dtor) = elim dtor [ none ↦ opaque ptr none | some d ↦ nil ]
value_copy (table items) = nil
value_copy (vector n c vs) = nil
value_copy (lua ref) = nil
value_copy v = v

-- `il_value_strwhich`
unfoldable pub value_strwhich : Value → String
value_strwhich invalid = "invalid"
value_strwhich nil = "nil"
value_strwhich true_value = "bool"
value_strwhich false_value = "bool"
value_strwhich (opaque ptr dtor) = "void"
value_strwhich (string bytes) = "string"
value_strwhich (int bits) = "int"
value_strwhich (float bits) = "float"
value_strwhich (table items) = "table"
value_strwhich (vector n c vs) = "vector"
value_strwhich (lua ref) = "lua"

-- `il_value_tobool`: the -1 of the last line is converted to `bool`.
unfoldable pub to_bool : Value → Bool
to_bool true_value = true
to_bool false_value = false
to_bool _ = true

-- `il_value_toint`
unfoldable pub to_int : Value → ℕ
to_int (int bits) = bits
to_int _ = 0

-- `il_value_tofloat`
unfoldable pub to_float : Value → ℕ
to_float (float bits) = bits
to_float _ = 0

-- `il_value_tovoid` and `il_value_tomvoid`: NULL is 0.
unfoldable pub to_void : Value → ℕ
to_void (opaque ptr dtor) = ptr
to_void _ = 0

-- `il_value_tostr` and `il_value_tomstr`
unfoldable pub to_str : Value → Option (List ℕ)
to_str (string bytes) = some bytes
to_str _ = none

-- `il_value_totable` and `il_value_tomtable`
unfoldable pub to_table : Value → Option Items
to_table (table items) = some items
to_table _ = none

-- `il_value_free`, `il_table_free`, `il_vector_free`: the destructors called, with what they are
-- given, in order.
unfoldable mutual
  pub value_free : Value → List (ℕ × ℕ)
  value_free (opaque ptr (some dtor)) = (dtor, ptr) ∷ []
  value_free (table items) = table_free items
  value_free (vector n c vs) = vector_free n vs
  value_free v = []

  pub table_free : Items → List (ℕ × ℕ)
  table_free no_items = []
  table_free (item hh key val rest) = value_free key ++ (value_free val ++ table_free rest)

  pub vector_free : ℕ → Values → List (ℕ × ℕ)
  vector_free zero vs = []
  vector_free (suc n) no_values = []
  vector_free (suc n) (value v vs) = value_free v ++ vector_free n vs
