-- ===== src/Common/Storage/Show.antt =====
-- common/storage.c: printing to `stderr`. The conversions of `fprintf` are the C library's, parameters.
use intense_logic.Base.{
  ℕ, zero, suc, ◌+◌, Bool, true, false, List, [], ◌∷◌, ◌++◌, if◌then◌else◌, replicate,
}
use intense_logic.Common.Storage.{
  Value, invalid, nil, true_value, false_value, opaque, string, int, float, table, vector, lua,
  Items, no_items, item, Values, no_values, value,
}

-- `"%p"`, `"%i"` and `"%.6f"`
pub record Printf : Type 0 where
  pub pointer : ℕ → List ℕ
  pub decimal : ℕ → List ℕ
  pub fixed : ℕ → List ℕ

-- `print_indent`
unfoldable pub print_indent : ℕ → List ℕ
print_indent indent = 10 ∷ replicate indent 9

-- "void(" and ")", "invalid", "nil", "bool", "lua" as bytes
abbrev void_open : List ℕ
void_open = 118 ∷ 111 ∷ 105 ∷ 100 ∷ 40 ∷ []

abbrev invalid_name : List ℕ
invalid_name = 105 ∷ 110 ∷ 118 ∷ 97 ∷ 108 ∷ 105 ∷ 100 ∷ []

abbrev nil_name : List ℕ
nil_name = 110 ∷ 105 ∷ 108 ∷ []

abbrev bool_name : List ℕ
bool_name = 98 ∷ 111 ∷ 111 ∷ 108 ∷ []

abbrev lua_name : List ℕ
lua_name = 108 ∷ 117 ∷ 97 ∷ []

module _ (p : Printf) where
  -- `show`, `show_table` and their loops: the bytes that are written. The loop over a vector has
  -- `first` for its index 0, and `n` elements left.
  unfoldable mutual
    pub show : Value → ℕ → List ℕ
    show invalid indent = invalid_name
    show nil indent = nil_name
    show true_value indent = bool_name
    show false_value indent = bool_name
    show (lua ref) indent = lua_name
    show (opaque ptr dtor) indent = void_open ++ (p.pointer ptr ++ 41 ∷ [])
    show (string bytes) indent = 34 ∷ (bytes ++ 34 ∷ [])
    show (int bits) indent = p.decimal bits
    show (float bits) indent = p.fixed bits
    show (table items) indent = 123 ∷ (show_items items indent ++ (print_indent indent ++ 125 ∷ []))
    show (vector n c vs) indent =
        91 ∷ (show_values n vs true indent ++ (print_indent indent ++ 93 ∷ []))

    pub show_items : Items → ℕ → List ℕ
    show_items no_items indent = []
    show_items (item hh key val rest) indent =
        print_indent (indent + 1)
        ++ (show key (indent + 1) ++ (58 ∷ 32 ∷ (show val (indent + 1) ++ show_items rest indent)))

    pub show_values : ℕ → Values → Bool → ℕ → List ℕ
    show_values zero vs first indent = []
    show_values (suc n) no_values first indent = []
    show_values (suc n) (value v vs) first indent =
        (if first then [] else 44 ∷ [])
        ++ (print_indent (indent + 1) ++ (show v (indent + 1) ++ show_values n vs false indent))

  -- `il_value_show`, `il_table_show`
  unfoldable pub value_show : Value → List ℕ
  value_show v = show v 0 ++ 10 ∷ []

  unfoldable pub table_show : Items → List ℕ
  table_show t = show (table t) 0 ++ 10 ∷ []
