-- ===== src/Common/Storage/Vector.antt =====
-- common/storage.c: vectors of values.
use intense_logic.Base.{ℕ, Option, none, some, List, [], ◌∷◌, leb, if◌then◌else◌, get_elem?}
use intense_logic.Base.{get_elem?}
use intense_logic.Common.Storage.{Value, invalid, value_vector}
use intense_logic.Array.{Array, empty, append, set_at}

unfoldable pub append_all : Array Value → List Value → Array Value
append_all a [] = a
append_all a (v ∷ vs) = append_all (append invalid a v) vs

-- `il_vector_new`, `il_vector_newv`: the values that the caller gives. Zeroed storage holds the
-- value with tag 0.
unfoldable pub vector_new : List Value → Array Value
unfolding append_all
vector_new vs = append_all empty vs

-- `il_value_vectorl`
unfoldable pub value_vectorl : List Value → Value
value_vectorl vs = value_vector (vector_new vs)

-- `il_vector_get`, `il_vector_mget`
unfoldable pub vector_get : Array Value → ℕ → Option Value
vector_get a idx = if leb a.length idx then some invalid else get_elem? a.mem idx

-- `il_vector_set`, with fuel for the loop of `IL_SET`
unfoldable pub vector_set : ℕ → Array Value → ℕ → Value → Option (Array Value)
vector_set fuel a idx v = set_at invalid fuel a idx v

-- `il_vector_len`
unfoldable pub vector_len : Array Value → ℕ
vector_len a = a.length

-- `getfunc` and `setfunc` of vectors
unfoldable pub vector_getfunc : {R : Type 0} → (Value → R) → Array Value → ℕ → Option R
vector_getfunc op a idx = elim (vector_get a idx) [ none ↦ none | some v ↦ some (op v) ]

unfoldable pub vector_setfunc :
    {T : Type 0} → (T → Value) → ℕ → Array Value → ℕ → T → Option (Array Value)
vector_setfunc op fuel a idx val = vector_set fuel a idx (op val)
