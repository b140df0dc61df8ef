-- ===== src/Asset/FilePath.antt =====
-- asset/path.c, as compiled without WIN32: paths are split at `/` and normalised. A string is its
-- bytes before the NUL; `nodes` are the contents of its array.
pub mod Normal
pub mod Print
use intense_logic.Base.{
  ℕ, zero, suc, ◌+◌, ◌-◌, ◌*◌, ◌/◌, ◌%◌, ◌^◌, ◌≤◌, ◌<◌, min, ◌≡◌, refl, sym, ap, ap₂, ◌∙◌, ◌≢◌, ◌↔◌,
  ◌⊎◌, inl, inr, Bool, true, false, not, ◌&&◌, ◌||◌, Option, none, some, List, [], ◌∷◌, ◌++◌, map,
  append-nil, append_assoc, arith, ltb, leb, ◌==◌, if◌then◌else◌, length, get_elem?, get_or, set,
  take, drop, replicate, copy_at, Bool-cases, dec_lt, ℕ_discrete,
}
use intense_logic.Base.{◌>>=◌}

-- `ilA_path`
pub record FilePath : Type 0 where
  pub path : List ℕ
  pub nodes : List (List ℕ)
  pub absolute : Bool

-- `/`, `.` and `~`
abbrev pub slash : ℕ
slash = 47

abbrev pub dot : ℕ
dot = 46

abbrev pub tilde : ℕ
tilde = 126

abbrev pub parent : List ℕ
parent = dot ∷ dot ∷ []

-- `strcmp(a, b) == 0`
abbrev pub same : List ℕ → List ℕ → Bool
same [] [] = true
same [] (d ∷ b) = false
same (c ∷ a) [] = false
same (c ∷ a) (d ∷ b) = (c == d) && same a b

abbrev pub starts_with : ℕ → List ℕ → Bool
starts_with c [] = false
starts_with c (d ∷ s) = d == c

abbrev pub longer : ℕ → List (List ℕ) → List (List ℕ)
longer c [] = (c ∷ []) ∷ []
longer c (t ∷ ts) = (c ∷ t) ∷ ts

-- The tokens that `strsep` gives one after the other.
unfoldable pub split : List ℕ → List (List ℕ)
split [] = [] ∷ []
split (c ∷ s) = if c == slash then [] ∷ split s else longer c (split s)

-- The loop of `ilA_path_string` over the tokens, with its `drops`.
unfoldable pub normalise : List (List ℕ) → ℕ → List (List ℕ) → List (List ℕ)
normalise [] drops nodes = nodes
normalise (t ∷ ts) drops nodes =
    if same t (dot ∷ []) || same t []
    then normalise ts drops nodes
    else if same t parent
    then (if ltb drops (length nodes)
        then normalise ts drops (take (length nodes - 1) nodes)
        else normalise ts (drops + 1) (nodes ++ (t ∷ [])))
    else normalise ts drops (nodes ++ (t ∷ []))

-- `ilA_path_string` of a string that does not start with `~`.
unfoldable pub parse_plain : List ℕ → FilePath
parse_plain s =
    let absolute = starts_with slash s in
    record {
      path = s;
      nodes = normalise (split (if absolute then drop 1 s else s)) 0 [];
      absolute = absolute;
    }

-- `ilA_path_string`, on fuel for its call of itself; `home` is the variable HOME. The inner `none`
-- is the NULL without HOME.
unfoldable pub parse : ℕ → Option (List ℕ) → List ℕ → Option (Option FilePath)
parse zero home s = none
parse (suc fuel) none s = if starts_with tilde s then some none else some (some (parse_plain s))
parse (suc fuel) (some home) s =
    let rest = parse fuel (some home) (home ++ (slash ∷ s)) in
    if starts_with tilde s then rest else some (some (parse_plain s))

-- `ilA_path_copy`: the copy is not marked absolute.
unfoldable pub path_copy : FilePath → FilePath
path_copy p = record p { absolute = false }

-- The loop of `ilA_path_tostr`; `sep` says that a separator comes first.
unfoldable pub print : Bool → List (List ℕ) → List ℕ
print sep [] = []
print sep (n ∷ ns) = if sep then slash ∷ (n ++ print true ns) else n ++ print true ns

-- `ilA_path_tostr`
unfoldable pub tostr : FilePath → List ℕ
tostr p = print p.absolute p.nodes

-- `il_string_cmp(a, b) != 0`, of nodes that do not share storage: `strncmp` up to the shorter length.
unfoldable pub differ : List ℕ → List ℕ → Bool
differ [] b = false
differ (c ∷ a) [] = false
differ (c ∷ a) (d ∷ b) = if c == d then differ a b else true

-- The loop of `ilA_path_cmp`, and its results: 1, -1 and 0.
pub data Order : Type 0 where
  after : Order
  before : Order
  equal : Order

unfoldable pub cmp : List (List ℕ) → List (List ℕ) → Order
cmp [] [] = equal
cmp [] (n ∷ b) = before
cmp (m ∷ a) [] = equal
cmp (m ∷ a) (n ∷ b) = if differ m n then after else cmp a b

-- `ilA_path_concat`
unfoldable pub path_concat : ℕ → Option (List ℕ) → FilePath → FilePath → Option (Option FilePath)
path_concat fuel home a b =
    parse fuel home ((if a.absolute then a.path else a.path ++ (slash ∷ [])) ++ b.path)

-- `ilA_path_absolute`, given the current directory
unfoldable pub path_absolute : ℕ → Option (List ℕ) → FilePath → FilePath → Option (Option FilePath)
path_absolute fuel home cwd p =
    if p.absolute
    then some (some (path_copy p))
    else do r ← path_concat fuel home cwd p; some (map_option r)
  where
    map_option : Option FilePath → Option FilePath
    map_option none = none
    map_option (some q) = some (record q { absolute = true })

-- `ilA_path_relativeTo`: `none` is NULL.
unfoldable pub relative_to : FilePath → FilePath → Option FilePath
relative_to a b = elim (cmp b.nodes a.nodes) [
  | before ↦
      let nodes = drop (length b.nodes) a.nodes in
      some (record { path = print false nodes; nodes = nodes; absolute = false })
  | _ ↦ none
]
