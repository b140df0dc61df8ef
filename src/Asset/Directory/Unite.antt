-- ===== src/Asset/Directory/Unite.antt =====
-- asset/union.c: what is found in a union.
use intense_logic.Base.{
  ℕ, ◌≡◌, refl, sym, ap, ◌∙◌, Bool, true, false, not, ◌&&◌, Option, none, some, if◌then◌else◌,
}
use intense_logic.Asset.FilePath.{FilePath}
use intense_logic.Asset.Directory.{
  Directory, plain, union, prefix, Entries, no_entries, entry, add_entry, or_later, lookup,
  union_lookup, unite,
}

abbrev pub is_union : Directory → Bool
is_union (union es) = true
is_union _ = false

or_later_assoc :
    {R : Type 0} (a b c : Option R) → or_later (or_later a b) c ≡ or_later a (or_later b c)
or_later_assoc none b c = refl
or_later_assoc (some r) b c = refl

or_later-none : {R : Type 0} (a : Option R) → or_later a none ≡ a
or_later-none none = refl
or_later-none (some r) = refl

module _ {R : Type 0} (find : ℕ → FilePath → Option R) (path : FilePath) where
  lookup-add_entry :
      (es : Entries) (d : Directory)
      → union_lookup find (add_entry es d) path
        ≡ or_later (union_lookup find es path) (lookup find d path)
  unfolding lookup add_entry
  lookup-add_entry no_entries d = or_later-none (lookup find d path)
  lookup-add_entry (entry e es) d =
      ap (λ o. or_later (lookup find e path) o) (lookup-add_entry es d)
      ∙ sym (or_later_assoc (lookup find e path) (union_lookup find es path) (lookup find d path))

  -- A union finds what the first directory finds, else what the second finds; the other way round
  -- if only the second is a union already, which the first is then added to.
  pub lookup-unite :
      (a b : Directory)
      → lookup find (unite a b) path ≡ (
          if not (is_union a) && is_union b
          then or_later (lookup find b path) (lookup find a path)
          else or_later (lookup find a path) (lookup find b path))
  unfolding lookup unite
  lookup-unite (union es) b = lookup-add_entry es b
  lookup-unite (plain n) (union es) = lookup-add_entry es (plain n)
  lookup-unite (plain n) (plain m) = ap (or_later (find n path)) (or_later-none (find m path))
  lookup-unite (plain n) (prefix p d) =
      ap (or_later (find n path)) (or_later-none (lookup find (prefix p d) path))
  lookup-unite (prefix p d) (union es) = lookup-add_entry es (prefix p d)
  lookup-unite (prefix p d) (plain m) =
      ap (or_later (lookup find (prefix p d) path)) (or_later-none (find m path))
  lookup-unite (prefix p d) (prefix q e) =
      ap (or_later (lookup find (prefix p d) path)) (or_later-none (lookup find (prefix q e) path))
