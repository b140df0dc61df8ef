-- ===== src/Asset/Directory.antt =====
-- asset/union.c, asset/prefix.c: directories made of others. What a plain directory finds is a
-- parameter; NULL is `none`.
pub mod Unite
use intense_logic.Base.{
  ℕ, zero, suc, ◌+◌, ◌-◌, ◌*◌, ◌/◌, ◌%◌, ◌^◌, ◌≤◌, ◌<◌, min, ◌≡◌, refl, sym, ap, ap₂, ◌∙◌, ◌≢◌, ◌↔◌,
  ◌⊎◌, inl, inr, Bool, true, false, not, ◌&&◌, ◌||◌, Option, none, some, List, [], ◌∷◌, ◌++◌, map,
  append-nil, append_assoc, arith, ltb, leb, ◌==◌, if◌then◌else◌, length, get_elem?, get_or, set,
  take, drop, replicate, copy_at, Bool-cases, dec_lt, ℕ_discrete,
}
use intense_logic.Base.{◌>>=◌}
use intense_logic.Asset.FilePath.{FilePath, relative_to}

-- An object with its `ilA_dir`: a plain directory is its number.
mutual
  pub data Directory : Type 0 where
    plain : ℕ → Directory
    union : Entries → Directory
    prefix : FilePath → Directory → Directory

  -- `dirs` of `struct ilunion`
  pub data Entries : Type 0 where
    no_entries : Entries
    entry : Directory → Entries → Entries

-- `IL_APPEND` to the entries
unfoldable pub add_entry : Entries → Directory → Entries
add_entry no_entries d = entry d no_entries
add_entry (entry e es) d = entry e (add_entry es d)

abbrev pub or_later : {R : Type 0} → Option R → Option R → Option R
or_later none o = o
or_later (some r) o = some r

module _ {R : Type 0} (find : ℕ → FilePath → Option R) where
  -- `ilA_lookup`, `prefix_lookup` and `union_lookup`, which stops at the first result.
  unfoldable mutual
    pub lookup : Directory → FilePath → Option R
    lookup (plain n) path = find n path
    lookup (union es) path = union_lookup es path
    lookup (prefix p d) path = relative_to path p >>= λ q. lookup d q

    pub union_lookup : Entries → FilePath → Option R
    union_lookup no_entries path = none
    union_lookup (entry d es) path = or_later (lookup d path) (union_lookup es path)

-- `ilA_union`, of two directories
unfoldable pub unite : Directory → Directory → Directory
unite (union es) b = union (add_entry es b)
unite a (union es) = union (add_entry es a)
unite a b = union (entry a (entry b no_entries))
